-- ===== src/Tests/Settings.antt =====
-- Settings behind a cache that starts empty.
use mathlib.Core.Path.{subst}
use text.Mathlib.Text.{◌==◌ as str_eq}
use py_board.Prelude.{
  ℕ, ◌≡◌, refl, inl, inr, eq_or_ne, List, Option, String, none, some, [], ◌∷◌, arith,
}
use py_board.Prelude.Int.{pos}
use py_board.Prelude.Rows.{lookup, find}
use py_board.Prelude.Table.{get}
use py_board.Json
use py_board.Exec.{ok}
use py_board.Cache.{Driver, Cell}
use py_board.Settings.{
  Setting, SettingTable, Texts, get_by_key, get_cached, save_config, touch, whole,
}
use py_board.Settings.Table.{IsTable}
use py_board.Settings.Coherent.{IsCoherent, IsFaithful}
use py_board.Settings.Transparent
use py_board.Settings.Transparent.{Call, IsTimely, run_cached, run_plain, run_cached-run_plain}
use py_board.Settings.RoundTrip.{IsReadBack, save_config-IsReadBack}

abbrev driver : Driver
driver = record { fetch = λ j. Cell.decoded j; loads = λ b. none; bigint = λ t. none }

abbrev str_of : Json.Json → String
str_of (Json.text v) = v
str_of _ = "?"

-- Only the number 5 is printed and read.
abbrev texts : Texts
texts = record {
  str_of = str_of;
  show_int = λ n. "5";
  read_int = λ t. some (pos 5);
  dumps = λ j. "[]";
  loads = λ t. none;
  is_yes = λ t. str_eq t "1";
}

faithful : IsFaithful driver texts
faithful = record { read = λ v. refl; shown = λ v. refl }

abbrev limit : Setting
limit = record { key = "invite_gen_limit"; value = "3"; type_name = "int"; description = none }

abbrev table : SettingTable
table = record { rows = (1, limit) ∷ []; next_id = 2 }

table-IsTable : IsTable table
unfolding lookup find
table-IsTable = record {
  keyed = (refl, tt);
  fresh = λ i le. ground arith;
  unique = λ i r e. elim (eq_or_ne 1 i) [
    | inl one ↦
        let is_limit : limit ≡ r = ground (arith, e, one) in
        subst (λ x. get_by_key x.key table ≡ some (i, x)) is_limit
          (subst (λ k. get_by_key limit.key table ≡ some (k, limit)) one refl)
    | inr ne ↦ absurd (ground (arith, e, ne))
  ];
}

empty-IsCoherent : IsCoherent 100 table []
unfolding get
empty-IsCoherent = record { keyed = tt; told = λ k e live. ground arith }

-- The setting is read, changed, read again, deleted and read; another one is created.
abbrev calls : List (ℕ × Call)
calls =
    (101, Transparent.reads "invite_gen_limit")
    ∷ (102, Transparent.sets "invite_gen_limit" "7" "int")
    ∷ (103, Transparent.reads "invite_gen_limit")
    ∷ (104, Transparent.deletes 1)
    ∷ (5000, Transparent.reads "invite_gen_limit")
    ∷ (5001, Transparent.creates (record limit { key = "app_name"; value = "board" }))
    ∷ []

run_cached-run_plain_example : run_cached driver texts calls (table, []) ≡ run_plain calls table
run_cached-run_plain_example =
    run_cached-run_plain driver texts faithful calls 100 table [] table-IsTable empty-IsCoherent
      (ground arith)

save_config-IsReadBack_example :
    (o : Option String) × ((get_cached driver texts 4000 "invite_gen_limit"
        (save_config texts "invite_gen_limit" (whole (pos 5)) table).0
        (touch 100 (save_config texts "invite_gen_limit" (whole (pos 5)) table).1 [])).0
      ≡ ok o)
    × IsReadBack texts (whole (pos 5)) o
save_config-IsReadBack_example =
    save_config-IsReadBack driver texts 100 4000 "invite_gen_limit" (whole (pos 5)) table []
      faithful table-IsTable empty-IsCoherent (ground arith) refl
