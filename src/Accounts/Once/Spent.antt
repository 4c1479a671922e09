-- ===== src/Accounts/Once/Spent.antt =====
-- The queries of the invite codes after a code was used (app/repositories/invite_code.py).
use text.Mathlib.Text.{◌==◌ as str_eq}
use py_board.Prelude.{
  ℕ, ◌≡◌, refl, sym, ap, ◌∙◌, inl, inr, String, Bool, true, false, Option, none, some, [], ◌∷◌,
  arith, Bool-cases,
}
use py_board.Prelude.Rows.{Rows, lookup, insert, find, IsKeyed, lookup-find}
use py_board.Prelude.Table.{text_eq}
use py_board.Codes.{IsDistinct, code_exists}
use py_board.Accounts.{InviteCode}
use py_board.Accounts.Invite.{invite_code_of}
use py_board.Accounts.Checks.{is_active_code}

module _ {A : Type 0} (p q : A → Bool) where
  -- A row found stands in the table: a condition that no row fits does not hold of it.
  pub unfit : (t : Rows A) (i : ℕ) (v : A) → find p t ≡ none → find q t ≡ some (i, v) → p v ≡ false
  unfolding find
  unfit [] i v none_p e = ground arith
  unfit ((j, w) ∷ t) i v none_p e = ground (arith, unfit t i v)

  pub find-insert_unfit :
      (i : ℕ) (w : A) (t : Rows A) → find p t ≡ none → p w ≡ false → find p (insert i w t) ≡ none
  unfolding find insert
  find-insert_unfit i w [] h e = ground arith
  find-insert_unfit i w ((j, x) ∷ t) h e = ground (arith, find-insert_unfit i w t)

  find-none_weaker :
      ((a : A) → q a ≡ true → p a ≡ true) → (t : Rows A) → find p t ≡ none → find q t ≡ none
  unfolding find
  find-none_weaker h [] e = refl
  find-none_weaker h ((j, x) ∷ t) e = elim (Bool-cases (q x)) [
    | inl fits ↦ absurd (ground (arith, h x fits))
    | inr unfits ↦ ground (arith, find-none_weaker h t)
  ]

no_code :
    (t : Rows InviteCode) (c : String)
    → code_exists invite_code_of t c ≡ false
    → find (is_active_code c) t ≡ none
no_code t c e =
    find-none_weaker (λ v. str_eq (invite_code_of v) c) (is_active_code c) (λ v fits. ground arith)
      t (free (find (λ v. str_eq (invite_code_of v) c) t) e)
  where
    free :
        (o : Option (ℕ × InviteCode)) → elim o [ none ↦ false | some _ ↦ true ] ≡ false → o ≡ none
    free none h = refl
    free (some x) h = absurd (ground arith)

-- The only row with a code that fits a condition on it, written so that it does not.
pub find-insert_spent :
    (c : String) (t : Rows InviteCode) (i : ℕ) (v w : InviteCode)
    → IsKeyed t
    → IsDistinct invite_code_of t
    → find (is_active_code c) t ≡ some (i, v)
    → is_active_code c w ≡ false
    → find (is_active_code c) (insert i w t) ≡ none
unfolding find insert lookup
find-insert_spent c [] i v w keyed distinct e spent = ground arith
find-insert_spent c ((j, x) ∷ t) i v w keyed distinct e spent =
    elim (Bool-cases (is_active_code c x)) [
      | inl fits ↦
          let same_code : x.code ≡ c = text_eq x.code c (ground arith) in
          let others =
            no_code t c (ap (code_exists invite_code_of t) (sym same_code) ∙ distinct.0) in
          ground (arith, others)
      | inr unfits ↦
          let rest = find-insert_spent c t i v w keyed.1 distinct.1 in
          let at = lookup-find (is_active_code c) t i v keyed.1 in ground (arith, rest, at, keyed.0)
    ]
