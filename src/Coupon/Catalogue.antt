-- ===== src/Coupon/Catalogue.antt =====
-- The table of coupons under `CouponService.generate`.
use py_board.Prelude.{
  ℕ, zero, suc, ◌≤◌, String, ◌≡◌, refl, inl, inr, false, none, some, ◌∷◌, arith, ◌∙◌, ap,
  Option-cases,
}
use py_board.Prelude.Rows.{lookup, lookup-insert}
use py_board.Runtime.{Env}
use py_board.Model.Entity.{Coupon}
use py_board.Exec.{ok, ◌>>=◌, bind_keeps, pure}
use py_board.Db.{Db}
use py_board.Codes.{first_free, first_free-free, IsDistinct, insert-IsDistinct}
use py_board.Coupon.Admin.{
  CouponCreate, coupon_code_exists, create_coupon_row, generate_code, validate_payload, coupon_of,
  generate_one, generate_loop, generate,
}

-- The next key is free, and no code stands twice.
abbrev pub IsCatalogue : Db → Type 0
IsCatalogue s =
    ((j : ℕ) → s.next_coupon ≤ j → lookup j s.coupons ≡ none)
    × IsDistinct (λ (k : Coupon). k.code) s.coupons

create_coupon_row-IsCatalogue :
    (c : Coupon) (s : Db)
    → IsCatalogue s
    → coupon_code_exists c.code s ≡ false
    → IsCatalogue (create_coupon_row c s).1
create_coupon_row-IsCatalogue c s w free = (
  λ j h. ground (arith, lookup-insert s.next_coupon j c s.coupons, w.0 j),
  insert-IsDistinct (λ (k : Coupon). k.code) s.next_coupon c s.coupons
      (w.0 s.next_coupon (omega arith)) free w.1,
)

generate_code-free :
    (draw : ℕ → String) (s : Db) (c : String)
    → (generate_code draw s).0 ≡ ok c
    → coupon_code_exists c s ≡ false
unfolding generate_code
generate_code-free draw s c h =
    elim (Option-cases (first_free 100 draw (λ c. coupon_code_exists c s))) [
      | inl exhausted ↦ absurd (cc (rw exhausted at h))
      | inr (d, e) ↦
          first_free-free 100 draw (λ c. coupon_code_exists c s) c
            (e ∙ ap some (ok_inj (rw e at h)))
    ]
  where
    ok_inj : {x y : String} → ok x ≡ ok y → x ≡ y
    ok_inj h = ground arith

generate_code-reads : (draw : ℕ → String) (s : Db) → (generate_code draw s).1 ≡ s
unfolding generate_code
generate_code-reads draw s =
    elim (Option-cases (first_free 100 draw (λ c. coupon_code_exists c s))) [
      | inl exhausted ↦ rw exhausted refl
      | inr (d, e) ↦ rw e refl
    ]

validate_payload-reads : (b : CouponCreate) (s : Db) → (validate_payload b s).1 ≡ s
unfolding validate_payload
validate_payload-reads b s = ground arith

module _ (env : Env) (b : CouponCreate) where
  generate_one-IsCatalogue :
      (draw : ℕ → String) (s : Db) → IsCatalogue s → IsCatalogue (generate_one env b draw s).1
  unfolding generate_one
  generate_one-IsCatalogue draw s w =
      bind_keeps (generate_code draw)
        (λ c. validate_payload b >>= λ _. create_coupon_row (coupon_of env b c)) s IsCatalogue
        (rw (generate_code-reads draw s) w)
        (λ c e. rw (generate_code-reads draw s) (
          bind_keeps (validate_payload b) (λ _. create_coupon_row (coupon_of env b c)) s IsCatalogue
            (rw (validate_payload-reads b s) w)
            (λ t ev. rw (validate_payload-reads b s) (
              create_coupon_row-IsCatalogue (coupon_of env b c) s w
                (generate_code-free draw s c e)))))

  generate_loop-IsCatalogue :
      (n : ℕ) (draws : ℕ → ℕ → String) (s : Db)
      → IsCatalogue s
      → IsCatalogue (generate_loop env n b draws s).1
  unfolding generate_loop
  generate_loop-IsCatalogue zero draws s w = w
  generate_loop-IsCatalogue (suc n) draws s w =
      bind_keeps (generate_one env b (draws 0))
        (λ i. generate_loop env n b (λ k. draws (suc k)) >>= λ rest. pure (i ∷ rest)) s IsCatalogue
        (generate_one-IsCatalogue (draws 0) s w)
        (λ i e.
          let s' = (generate_one env b (draws 0) s).1 in
          let kept =
            generate_loop-IsCatalogue n (λ k. draws (suc k)) s'
              (generate_one-IsCatalogue (draws 0) s w) in
          bind_keeps (generate_loop env n b (λ k. draws (suc k))) (λ rest. pure (i ∷ rest)) s'
            IsCatalogue kept (λ l el. kept))

  -- From a table of coupons whose next key is free and in which no code stands twice, whatever is
  -- drawn and however far it gets, the generation of coupons leaves the next key free and no code
  -- standing twice.
  pub generate-IsCatalogue :
      (n : ℕ) (draws : ℕ → ℕ → String) (s : Db)
      → IsCatalogue s
      → IsCatalogue (generate env n b draws s).1
  unfolding generate
  generate-IsCatalogue n draws s w = ground (arith, generate_loop-IsCatalogue n draws s w)
