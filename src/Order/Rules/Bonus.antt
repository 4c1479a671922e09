-- ===== src/Order/Rules/Bonus.antt =====
-- The bonus of a deposit.
use py_board.Prelude.{
  String, ◌≡◌, refl, ◌⊎◌, inl, inr, Bool, true, false, some, List, [], ◌∷◌, arith, Option-cases,
  Bool-cases, sym, ◌∙◌, if◌then◌else◌,
}
use py_board.Prelude.Int.{ℤ, pos, ◌≤ℤ◌, leb_ℤ, max_ℤ}
use py_board.Json.{Json}
use py_board.Runtime.{Env}
use py_board.Exec.{Result-cases, ok}
use py_board.Order.Rules.{
  Cents, cents, malformed, too_large, split_colon, text_cents, best_bonus, bonus_loop,
  deposit_bonus,
}

Cents-cases : (c : Cents) → ((n : ℤ) × (c ≡ cents n)) ⊎ (c ≡ malformed) ⊎ (c ≡ too_large)
Cents-cases (cents n) = inl (n, refl)
Cents-cases malformed = inr (inl refl)
Cents-cases too_large = inr (inr refl)

ok_inj : {x y : ℤ} → ok x ≡ ok y → x ≡ y
ok_inj h = ground arith

-- The bonus after a well-formed tier.
abbrev after_tier : ℤ → ℤ → ℤ → ℤ → ℤ
after_tier a n m b = if leb_ℤ n a then max_ℤ b m else b

after_tier_mono :
    (a a' n m b b' : ℤ) → a ≤ℤ a' → b ≤ℤ b' → after_tier a n m b ≤ℤ after_tier a' n m b'
after_tier_mono a a' n m b b' le h = elim (Bool-cases (leb_ℤ n a)) [
  | inl reached ↦
      let reached' : leb_ℤ n a' ≡ true = ground arith in rw (reached, reached') (max_mono b b' m h)
  | inr short ↦ rw short (above (leb_ℤ n a'))
]
  where
    max_mono : (b b' m : ℤ) → b ≤ℤ b' → max_ℤ b m ≤ℤ max_ℤ b' m
    max_mono b b' m h = ground arith

    above : (c : Bool) → b ≤ℤ (if c then max_ℤ b' m else b')
    above true = ground arith
    above false = h

after_well_formed :
    (env : Env) (a : ℤ) (t : Json) (b n m : ℤ) (x y : String)
    → split_colon (env.str_of t) ≡ some (x, y)
    → text_cents env x ≡ cents n
    → text_cents env y ≡ cents m
    → best_bonus env a t b ≡ ok (after_tier a n m b)
unfolding best_bonus
after_well_formed env a t b n m x y split ex ey = rw (split, ex, ey, best_bonus) refl

module _ (env : Env) (a a' : ℤ) (le : a ≤ℤ a') where
  best_bonus_mono :
      (t : Json) (b b' r r' : ℤ)
      → b ≤ℤ b'
      → best_bonus env a t b ≡ ok r
      → best_bonus env a' t b' ≡ ok r'
      → r ≤ℤ r'
  unfolding best_bonus
  best_bonus_mono t b b' r r' h e e' = elim (Option-cases (split_colon (env.str_of t))) [
    | inl no_colon ↦ ground arith
    | inr ((x, y), split) ↦ elim (Cents-cases (text_cents env x)) [
      | inr (inl bad) ↦ ground arith
      | inr (inr large) ↦ absurd (ground arith)
      | inl (n, ex) ↦ elim (Cents-cases (text_cents env y)) [
        | inr (inl bad) ↦ ground arith
        | inr (inr large) ↦ absurd (ground arith)
        | inl (m, ey) ↦
            let q : after_tier a n m b ≡ r =
              ok_inj (sym (after_well_formed env a t b n m x y split ex ey) ∙ e) in
            let q' : after_tier a' n m b' ≡ r' =
              ok_inj (sym (after_well_formed env a' t b' n m x y split ex ey) ∙ e') in
            rw (sym q, sym q') (after_tier_mono a a' n m b b' le h)
      ]
    ]
  ]

  bonus_loop_mono :
      (ts : List Json) (b b' r r' : ℤ)
      → b ≤ℤ b'
      → bonus_loop env a ts b ≡ ok r
      → bonus_loop env a' ts b' ≡ ok r'
      → r ≤ℤ r'
  unfolding bonus_loop
  bonus_loop_mono [] b b' r r' h e e' = ground arith
  bonus_loop_mono (t ∷ ts) b b' r r' h e e' = elim (Result-cases (best_bonus env a t b)) [
    | inr (x, ex) ↦ absurd (ground arith)
    | inl (c, ec) ↦ elim (Result-cases (best_bonus env a' t b')) [
      | inr (x, ex) ↦ absurd (ground arith)
      | inl (c', ec') ↦
          bonus_loop_mono ts c c' r r' (best_bonus_mono t b b' c c' h ec ec') (ground arith)
            (ground arith)
    ]
  ]

best_bonus_grows : (env : Env) (a : ℤ) (t : Json) (b r : ℤ) → best_bonus env a t b ≡ ok r → b ≤ℤ r
unfolding best_bonus
best_bonus_grows env a t b r e = elim (Option-cases (split_colon (env.str_of t))) [
  | inl no_colon ↦ ground arith
  | inr ((x, y), split) ↦ elim (Cents-cases (text_cents env x)) [
    | inr (inl bad) ↦ ground arith
    | inr (inr large) ↦ absurd (ground arith)
    | inl (n, ex) ↦ elim (Cents-cases (text_cents env y)) [
      | inr (inl bad) ↦ ground arith
      | inr (inr large) ↦ absurd (ground arith)
      | inl (m, ey) ↦ ground arith
    ]
  ]
]

bonus_loop_grows :
    (env : Env) (a : ℤ) (ts : List Json) (b r : ℤ) → bonus_loop env a ts b ≡ ok r → b ≤ℤ r
unfolding bonus_loop
bonus_loop_grows env a [] b r e = ground arith
bonus_loop_grows env a (t ∷ ts) b r e = elim (Result-cases (best_bonus env a t b)) [
  | inr (x, ex) ↦ absurd (ground arith)
  | inl (c, ec) ↦ ground (arith, best_bonus_grows env a t b c ec, bonus_loop_grows env a ts c r)
]

-- Whatever the configured tiers say, malformed ones included: where the bonuses of two deposits are
-- computed without an exception, the bonus of the smaller deposit is not negative, and that of the
-- larger is not smaller.
pub deposit_bonus_mono :
    (env : Env) (a a' r r' : ℤ)
    → a ≤ℤ a'
    → deposit_bonus env a ≡ ok r
    → deposit_bonus env a' ≡ ok r'
    → (pos 0 ≤ℤ r) × (r ≤ℤ r')
unfolding deposit_bonus
deposit_bonus_mono env a a' r r' le e e' = (
  bonus_loop_grows env a _ (pos 0) r e,
  bonus_loop_mono env a a' le _ (pos 0) (pos 0) r r' (omega arith) e e',
)
