-- ===== src/Payments/Epay/Order.antt =====
-- The signature of app/payments/epay.py and the order of the parameters.
use Prim.Native.String as NativeString
use Prim.Native.String.{◌++◌ as joined}
use text.Mathlib.Text.{◌==◌ as str_eq}
use text.Mathlib.TextEquality.{Char-path}
use py_board.Prelude.{
  ◌≡◌, ◌⊎◌, refl, sym, ap, ◌∙◌, inl, inr, String, Bool, true, false, [], ◌∷◌, arith, Bool-cases,
  if◌then◌else◌,
}
use py_board.Prelude.Table.{text_eq_refl}
use py_board.Payments.{Params}
use py_board.Payments.Epay.{
  EpayEnv, is_signed, signed_params, before, insert_param, sorted_params, param_str,
  php_stripslashes, generate_sign,
}

before_trans : (a b c : String) → before a b ≡ true → before b c ≡ true → before a c ≡ true
unfolding before
before_trans NativeString.[] NativeString.[] c h g = g
before_trans NativeString.[] (NativeString.◌∷◌ e t) NativeString.[] h g = absurd (ground arith)
before_trans NativeString.[] (NativeString.◌∷◌ e t) (NativeString.◌∷◌ f u) h g = refl
before_trans (NativeString.◌∷◌ d s) NativeString.[] c h g = absurd (ground arith)
before_trans (NativeString.◌∷◌ d s) (NativeString.◌∷◌ e t) NativeString.[] h g =
    absurd (ground arith)
before_trans (NativeString.◌∷◌ d s) (NativeString.◌∷◌ e t) (NativeString.◌∷◌ f u) h g =
    ground (arith, before_trans s t u)

before_irrefl : (a : String) → before a a ≡ false
unfolding before
before_irrefl NativeString.[] = refl
before_irrefl (NativeString.◌∷◌ c s) = ground (arith, before_irrefl s)

before_asym : (a b : String) → before a b ≡ true → before b a ≡ false
before_asym a b h = elim (Bool-cases (before b a)) [
  | inl g ↦ absurd (ground (arith, before_trans a b a h g, before_irrefl a))
  | inr g ↦ g
]

before_total : (a b : String) → before a b ≡ false → before b a ≡ false → a ≡ b
unfolding before
before_total NativeString.[] NativeString.[] h g = refl
before_total NativeString.[] (NativeString.◌∷◌ d t) h g = absurd (ground arith)
before_total (NativeString.◌∷◌ c s) NativeString.[] h g = absurd (ground arith)
before_total (NativeString.◌∷◌ c s) (NativeString.◌∷◌ d t) h g =
    let same = Char-path c d (ground arith) in
    let rest = before_total s t (ground arith) (ground arith) in
    ap (λ x. NativeString.◌∷◌ x s) same ∙ ap (NativeString.◌∷◌ d) rest

-- Two different keys: one stands before the other.
before_either :
    (a b : String)
    → str_eq a b ≡ false
    → ((before a b ≡ true) × (before b a ≡ false)) ⊎ ((before b a ≡ true) × (before a b ≡ false))
before_either a b apart = elim (Bool-cases (before a b)) [
  | inl lt ↦ inl (lt, before_asym a b lt)
  | inr ge ↦ elim (Bool-cases (before b a)) [
    | inl gt ↦ inr (gt, ge)
    | inr le ↦
        absurd (ground (arith, apart, ap (str_eq a) (before_total a b ge le), text_eq_refl a))
  ]
]

insert_before :
    (k v j w : String) (t : Params)
    → before k j ≡ true
    → before j k ≡ false
    → insert_param k v (insert_param j w t) ≡ insert_param j w (insert_param k v t)
unfolding insert_param
insert_before k v j w [] lt ge = ground arith
insert_before k v j w ((x, u) ∷ t) lt ge =
    let rest = insert_before k v j w t lt ge in
    let up = before_trans x k j in ground (arith, rest, up)

insert_param-insert_param :
    (k v j w : String) (t : Params)
    → str_eq k j ≡ false
    → insert_param k v (insert_param j w t) ≡ insert_param j w (insert_param k v t)
insert_param-insert_param k v j w t apart = elim (before_either k j apart) [
  | inl (lt, ge) ↦ insert_before k v j w t lt ge
  | inr (gt, le) ↦ sym (insert_before j w k v t gt le)
]

-- The same parameters in another order, by exchanges of neighbours with different keys.
pub data Rearranged : Params → Params → Type 0 where
  as_is : (p : Params) → Rearranged p p
  below : (k v : String) {p q : Params} → Rearranged p q → Rearranged ((k, v) ∷ p) ((k, v) ∷ q)
  swapped :
      (k v j w : String) (p : Params)
      → str_eq k j ≡ false
      → Rearranged ((k, v) ∷ (j, w) ∷ p) ((j, w) ∷ (k, v) ∷ p)
  further : {p q r : Params} → Rearranged p q → Rearranged q r → Rearranged p r

sorted_params-Rearranged :
    {p q : Params}
    → Rearranged p q
    → sorted_params (signed_params p) ≡ sorted_params (signed_params q)
unfolding sorted_params signed_params
sorted_params-Rearranged (as_is p) = refl
sorted_params-Rearranged (below k v {p} {q} r) =
    by_cases (is_signed k v) (sorted_params-Rearranged r)
  where
    by_cases :
        (x : Bool)
        → sorted_params (signed_params p) ≡ sorted_params (signed_params q)
        → sorted_params (if x then (k, v) ∷ signed_params p else signed_params p)
          ≡ sorted_params (if x then (k, v) ∷ signed_params q else signed_params q)
    by_cases true rest = ap (insert_param k v) rest
    by_cases false rest = rest
sorted_params-Rearranged (swapped k v j w p apart) = by_cases (is_signed k v) (is_signed j w)
  where
    tail : Bool → Params → Params
    tail x t = if x then (j, w) ∷ t else t

    head : Bool → Params → Params
    head x t = if x then (k, v) ∷ t else t

    by_cases :
        (x y : Bool)
        → sorted_params (head x (tail y (signed_params p)))
          ≡ sorted_params (tail y (head x (signed_params p)))
    by_cases true true = insert_param-insert_param k v j w (sorted_params (signed_params p)) apart
    by_cases true false = refl
    by_cases false y = refl
sorted_params-Rearranged (further first second) =
    sorted_params-Rearranged first ∙ sorted_params-Rearranged second

-- The signature of parameters with different keys is the same in whatever order they are sent.
pub generate_sign-Rearranged :
    (env : EpayEnv) (key : String) (p q : Params)
    → Rearranged p q
    → generate_sign env key p ≡ generate_sign env key q
unfolding generate_sign
generate_sign-Rearranged env key p q r =
    ap (λ x. env.md5 (joined (php_stripslashes (param_str x)) key)) (sorted_params-Rearranged r)
