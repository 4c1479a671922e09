-- ===== src/Accounts/Once.antt =====
-- How often an invite code lets somebody register (app/services/auth.py, `register`).
pub mod Spent
use text.Mathlib.Text.{◌==◌ as str_eq}
use py_board.Prelude.{
  ℕ, ◌≡◌, ◌≢◌, ◌⊎◌, refl, sym, ap, ◌∙◌, inl, inr, String, Bool, true, false, Option, none, some, [],
  ◌∷◌, arith, get_or, Bool-cases, Option-cases, if◌then◌else◌,
}
use py_board.Prelude.Int.{pos, ◌+ℤ◌}
use py_board.Prelude.Rows.{Rows, lookup, insert, find, IsKeyed, lookup-find}
use py_board.Prelude.Table.{text_eq}
use py_board.Codes.{IsDistinct, code_exists}
use py_board.Exec.{
  Result, ok, err, Exn, request, bind-ok, bind-err, bind_returns, bind_keeps, Result-cases,
  conflict, email_taken,
}
use py_board.Accounts.{Account, InviteCode, Registry, AuthEnv, create_account, email_exists}
use py_board.Accounts.Invite.{invite_code_of}
use py_board.Accounts.Checks.{is_on, is_blank, is_active_code, use_invite, resolve_invite_user_id}
use py_board.Accounts.Checks.Cached.{check_registration-OnlyCache}
use py_board.Accounts.Register.{
  UserCreate, registered, check_registration, welcome, open_account, admit, unless_taken,
  after_checks, register,
}
use py_board.Accounts.Once.Spent.{unfit, find-insert_unfit, find-insert_spent}

-- No invite code `c` is left for a registration.
abbrev pub IsSpent : String → Registry → Type 0
IsSpent c s = find (is_active_code c) s.invites ≡ none

abbrev pub used : AuthEnv → InviteCode → InviteCode
used env v = record v {
  pv = v.pv +ℤ pos 1;
  status = if is_on env "invite_never_expire" then v.status else pos 1;
}

create_account-invites : (a : Account) (s : Registry) → (create_account a s).1.invites ≡ s.invites
unfolding create_account
create_account-invites a s = ground arith

module _ (env : AuthEnv) where
  open_account-invites :
      (b : UserCreate) (u : Option ℕ) (s : Registry)
      → (open_account env b u s).1.invites ≡ s.invites
  unfolding open_account welcome
  open_account-invites b u s =
      bind_keeps (create_account (registered env b u)) (welcome env b u) s
        (λ r. r.invites ≡ s.invites) (create_account-invites (registered env b u) s)
        (λ i e. create_account-invites (registered env b u) s)

  check_registration-invites :
      (b : UserCreate) (ip : Option String) (s : Registry)
      → (check_registration env b ip s).1.invites ≡ s.invites
  check_registration-invites b ip s =
      let (c, e) = (check_registration-OnlyCache env b ip).cached s in
      ap (λ (r : Registry). r.invites) e

  -- An invite code that lets somebody register is there, and is written as used.
  resolve_invite_user_id-used :
      (c : String) (u : Option ℕ) (s : Registry)
      → is_blank (some c) ≡ false
      → (resolve_invite_user_id env (some c) s).0 ≡ ok u
      → (i : ℕ) × (v : InviteCode) × (find (is_active_code (env.strip_upper c)) s.invites
          ≡ some (i, v))
        × ((resolve_invite_user_id env (some c) s).1.invites ≡ insert i (used env v) s.invites)
  unfolding resolve_invite_user_id use_invite
  resolve_invite_user_id-used c u s full returned =
      elim (Option-cases (find (is_active_code (env.strip_upper c)) s.invites)) [
        | inl missing ↦ absurd (ground (arith, rw (full, missing) at returned))
        | inr ((i, v), e) ↦ (i, v, e, rw (full, e) refl)
      ]

  resolve_invite_user_id-IsSpent :
      (c : String) (code : Option String) (s : Registry)
      → IsSpent c s
      → IsSpent c (resolve_invite_user_id env code s).1
  unfolding resolve_invite_user_id use_invite
  resolve_invite_user_id-IsSpent c code s spent = elim (Bool-cases (is_blank code)) [
    | inl blank ↦ rw blank (ground arith)
    | inr full ↦
        elim (Option-cases (find (is_active_code (env.strip_upper (get_or code ""))) s.invites)) [
          | inl missing ↦ rw (full, missing) spent
          | inr ((i, v), e) ↦
              rw (full, e)
                (find-insert_unfit (is_active_code c) (is_active_code c) i (used env v) s.invites
                  spent
                  (let old =
                      unfit (is_active_code c) (is_active_code (env.strip_upper (get_or code "")))
                        s.invites i v spent e in
                    ground arith))
        ]
  ]

  admit-IsSpent :
      (c : String) (b : UserCreate) (s : Registry) → IsSpent c s → IsSpent c (admit env b s).1
  unfolding admit
  admit-IsSpent c b s spent =
      let kept = resolve_invite_user_id-IsSpent c b.invite_code s spent in
      bind_keeps (resolve_invite_user_id env b.invite_code) (open_account env b) s (IsSpent c) kept
        (λ u e. rw (open_account-invites b u (resolve_invite_user_id env b.invite_code s).1) kept)

  -- A registration whose checks let it pass is what `admit` does of the state after them, or a conflict.
  pub register-cases :
      (b : UserCreate) (ip : Option String) (s : Registry)
      → ((e : Exn) × (register env b ip s ≡ (err e, (check_registration env b ip s).1)))
        ⊎ ((email_exists b.email (check_registration env b ip s).1 ≡ false)
            × (register env b ip s ≡ admit env b (check_registration env b ip s).1))
  unfolding register
  register-cases b ip s = elim (Result-cases (check_registration env b ip s).0) [
    | inr (x, e) ↦ inl (x, bind-err (check_registration env b ip) (λ _. after_checks env b) s e)
    | inl (a, e) ↦
        let t = (check_registration env b ip s).1 in
        let after : register env b ip s ≡ after_checks env b t =
          bind-ok (check_registration env b ip) (λ _. after_checks env b) s e in
        elim (by_cases t (email_exists b.email t)) [
          | inl taken ↦ inl (conflict email_taken, after ∙ taken)
          | inr (free, admitted) ↦ inr (free, after ∙ admitted)
        ]
  ]
    where
      by_cases :
          (t : Registry) (x : Bool)
          → (unless_taken env b x t ≡ (err (conflict email_taken), t))
            ⊎ ((x ≡ false) × (unless_taken env b x t ≡ admit env b t))
      by_cases t true = inl refl
      by_cases t false = inr (refl, refl)

  register-IsSpent :
      (c : String) (b : UserCreate) (ip : Option String) (s : Registry)
      → IsSpent c s
      → IsSpent c (register env b ip s).1
  register-IsSpent c b ip s spent =
      let checked : IsSpent c (check_registration env b ip s).1 =
        rw (check_registration-invites b ip s) spent in
      elim (register-cases b ip s) [
        | inl (x, e) ↦ rw e checked
        | inr (free, e) ↦ rw e (admit-IsSpent c b (check_registration env b ip s).1 checked)
      ]

  -- A registration that returns with an invite code: the row of the code, and the table after it.
  register-used :
      (c : String) (b : UserCreate) (ip : Option String) (s : Registry) (t : String)
      → b.invite_code ≡ some c
      → is_blank (some c) ≡ false
      → (register env b ip s).0 ≡ ok t
      → (i : ℕ) × (v : InviteCode) × (find (is_active_code (env.strip_upper c)) s.invites
          ≡ some (i, v))
        × ((register env b ip s).1.invites ≡ insert i (used env v) s.invites)
  unfolding admit
  register-used c b ip s t code full returned = elim (register-cases b ip s) [
    | inl (x, e) ↦ absurd (ground (arith, rw e at returned))
    | inr (free, e) ↦
        let s' = (check_registration env b ip s).1 in
        let same = check_registration-invites b ip s in
        let admitted : (admit env b s').0 ≡ ok t =
          sym (ap (λ (p : Result String × Registry). p.0) e) ∙ returned in
        let (u, resolved, rest) =
          bind_returns (resolve_invite_user_id env b.invite_code) (open_account env b) s'
            admitted in
        let (i, v, found, written) =
          resolve_invite_user_id-used c u s' full
            (ap (λ o. (resolve_invite_user_id env o s').0) (sym code) ∙ resolved) in
        (
          i,
          v,
          ap (find (is_active_code (env.strip_upper c))) (sym same) ∙ found,
          ap (λ (p : Result String × Registry). p.1.invites) (e ∙ rest)
              ∙ open_account-invites b u (resolve_invite_user_id env b.invite_code s').1
              ∙ ap (λ o. (resolve_invite_user_id env o s').1.invites) code
              ∙ written
              ∙ ap (insert i (used env v)) same,
        )
  ]

  register-spends :
      (c : String) (b : UserCreate) (ip : Option String) (s : Registry) (t : String)
      → IsKeyed s.invites
      → IsDistinct invite_code_of s.invites
      → is_on env "invite_never_expire" ≡ false
      → b.invite_code ≡ some c
      → is_blank (some c) ≡ false
      → (register env b ip s).0 ≡ ok t
      → IsSpent (env.strip_upper c) (register env b ip s).1
  register-spends c b ip s t keyed distinct expires code full returned =
      let (i, v, found, written) = register-used c b ip s t code full returned in
      rw written (
        find-insert_spent (env.strip_upper c) s.invites i v (used env v) keyed distinct found
          (ground arith))

-- Registrations, of anyone and in any settings, each rolled back if it raises.
pub data Registrations (s : Registry) : Registry → Type 0 where
  start : Registrations s s
  then_register :
      {t : Registry} (env : AuthEnv) (b : UserCreate) (ip : Option String)
      → Registrations s t
      → Registrations s (request (register env b ip) t).1

Registrations-IsSpent :
    (c : String) {s t : Registry} → Registrations s t → IsSpent c s → IsSpent c t
unfolding request find register
Registrations-IsSpent c start spent = spent
Registrations-IsSpent c (then_register {t} env b ip before) spent =
    let so_far = Registrations-IsSpent c before spent in
    elim (Result-cases (register env b ip t).0) [
      | inl (a, e) ↦ rw e (register-IsSpent env c b ip t so_far)
      | inr (x, e) ↦ rw e so_far
    ]

-- Where no key and no code stands twice among the invite codes and `invite_never_expire` is off: after a
-- registration that returned with an invite code, and any registrations after it in any settings, a
-- registration with that code, which is compared without outer space and in capitals, does not return.
pub register-once :
    (env env' : AuthEnv) (a b : UserCreate) (ip ip' : Option String) (c c' : String) (t t' : String)
    (s s' : Registry)
    → IsKeyed s.invites
    → IsDistinct invite_code_of s.invites
    → is_on env "invite_never_expire" ≡ false
    → a.invite_code ≡ some c
    → b.invite_code ≡ some c'
    → is_blank (some c) ≡ false
    → is_blank (some c') ≡ false
    → env'.strip_upper c' ≡ env.strip_upper c
    → (register env a ip s).0 ≡ ok t
    → Registrations (register env a ip s).1 s'
    → (register env' b ip' s').0 ≢ ok t'
register-once env env' a b ip ip' c c' t t' s s' keyed distinct expires ca cb fa fb same first
      between second =
    let spent =
      Registrations-IsSpent (env.strip_upper c) between
        (register-spends env c a ip s t keyed distinct expires ca fa first) in
    let (i, v, found, _) = register-used env' c' b ip' s' t' cb fb second in
    absurd (ground (arith, spent, ap (λ x. find (is_active_code x) s'.invites) (sym same) ∙ found))
