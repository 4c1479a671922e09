-- ===== src/Cache/Window.antt =====
-- The counters of the cache (`incr`), as the rate limits use them, and the writes of an absent key.
use py_board.Prelude.{
  ℕ, suc, ◌+◌, ◌<◌, ◌≡◌, refl, ap, ◌∙◌, String, false, Option, none, some, List, [], ◌∷◌, arith,
  leb, if◌then◌else◌,
}
use py_board.Prelude.Int.{ℤ, pos, ◌+ℤ◌}
use py_board.Prelude.Table.{get, put, get-put, text_eq_refl}
use py_board.Json
use py_board.Cache.{Entry, Store, Driver, live_at, find_live, incr, incremented}

-- The numbers that a sequence of counts returns.
unfoldable pub counts : Driver → String → Option ℕ → List ℕ → Store → List ℤ
counts d k ex [] s = []
counts d k ex (t ∷ ts) s = (incr d t k ex s).0 ∷ counts d k ex ts (incr d t k ex s).1

-- The numbers after `n`, one for each call.
unfoldable pub numbers_after : ℕ → List ℕ → List ℤ
numbers_after n [] = []
numbers_after n (t ∷ ts) = pos (suc n) ∷ numbers_after (suc n) ts

abbrev pub IsBefore : ℕ → List ℕ → Type 0
IsBefore end [] = Unit
IsBefore end (t ∷ ts) = (t < end) × IsBefore end ts

get-put_self : (k : String) (e : Entry) (s : Store) → get k (put k e s) ≡ some e
get-put_self k e s = get-put k k e s ∙ ap (λ b. if b then some e else get k s) (text_eq_refl k)

abbrev counter : ℕ → ℕ → Entry
counter n end = record { value = Json.number (pos n); expires_at = some end }

-- A count of a live counter keeps the end of its window.
incr-live :
    (d : Driver) (t : ℕ) (k : String) (ex : Option ℕ) (n end : ℕ) (s : Store)
    → get k s ≡ some (counter n end)
    → t < end
    → ((incr d t k ex s).0 ≡ pos (suc n)) × (get k (incr d t k ex s).1 ≡ some (counter (suc n) end))
unfolding incr ◌+ℤ◌
incr-live d t k ex n end s h lt =
    let young : leb end t ≡ false = ground arith in
    rw (h, young) (ground arith, get-put_self k _ s ∙ ground arith)

counts-live :
    (d : Driver) (k : String) (ex : Option ℕ) (n end : ℕ) (ts : List ℕ) (s : Store)
    → get k s ≡ some (counter n end)
    → IsBefore end ts
    → counts d k ex ts s ≡ numbers_after n ts
unfolding counts numbers_after
counts-live d k ex n end [] s h b = refl
counts-live d k ex n end (t ∷ ts) s h b =
    let (first, after) = incr-live d t k ex n end s h b.0 in
    rw first (
      ap (λ rest. pos (suc n) ∷ rest)
        (counts-live d k ex (suc n) end ts (incr d t k ex s).1 after b.1))

-- From the first count of a key that has no live entry, at the time `now` with a window of `w` seconds:
-- every count before `now + w` returns the number of counts so far, the first one included, so a limit
-- on the number returned is a limit on the calls in the window, which later calls do not prolong.
pub counts-window :
    (d : Driver) (k : String) (now w : ℕ) (ts : List ℕ) (s : Store)
    → find_live now k s ≡ none
    → IsBefore (now + suc w) ts
    → counts d k (some (suc w)) (now ∷ ts) s ≡ numbers_after 0 (now ∷ ts)
unfolding counts numbers_after incr
counts-window d k now w ts s h b = rw (first (get k s) h) (
    ap (λ rest. pos 1 ∷ rest)
      (counts-live d k (some (suc w)) 1 (now + suc w) ts (put k (counter 1 (now + suc w)) s)
        (get-put_self k (counter 1 (now + suc w)) s) b))
  where
    first :
        (o : Option Entry)
        → live_at now o ≡ none
        → incremented d now (some (now + suc w)) o ≡ (pos 1, some (now + suc w))
    first none h = refl
    first (some e) h = ground arith
