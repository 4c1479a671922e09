-- ===== src/Settings/Transparent.antt =====
-- app/services/setting.py with the cache of app/core/cache.py and without it.
use py_board.Prelude.{ℕ, ◌≤◌, ◌≡◌, refl, ap, ◌∙◌, String, Bool, Option, List, [], ◌∷◌}
use py_board.Exec.{Result, ok}
use py_board.Cache.{Store, Driver}
use py_board.Settings.{
  Setting, SettingTable, SettingUpdate, Texts, Touch, untouched, set_setting, create_setting,
  update_setting, delete_setting, touch, get_stored, get_cached,
}
use py_board.Settings.Table.{IsTable, Change, nothing_changed}
use py_board.Settings.Writes.{
  set_setting-Change, set_setting-IsTable, create_setting-Change, create_setting-IsTable,
  update_setting-Change, update_setting-IsTable, delete_setting-Change, delete_setting-IsTable,
}
use py_board.Settings.Coherent.{
  IsCoherent, IsCoherent-later, IsFaithful, touch-IsCoherent, get_cached-reads,
}

-- The calls, and what a caller sees.
pub data Call : Type 0 where
  reads : String → Call
  sets : String → String → String → Call
  creates : Setting → Call
  updates : ℕ → SettingUpdate → Call
  deletes : ℕ → Call

pub data Reply : Type 0 where
  read : Result (Option String) → Reply
  found : Bool → Reply
  done : Reply

-- The write of a call: the reply, the table, and what the cache is told.
abbrev pub write : Call → SettingTable → Reply × (SettingTable × Touch)
write (reads k) t = (done, (t, untouched))
write (sets k v kind) t = (done, set_setting k v kind t)
write (creates r) t = let (b, w) = create_setting r t in (found b, w)
write (updates i u) t = let (b, w) = update_setting i u t in (found b, w)
write (deletes i) t = let (b, w) = delete_setting i t in (found b, w)

-- A service without a cache, and one with it.
abbrev pub plain : Call → SettingTable → Reply × SettingTable
plain (reads k) t = (read (ok (get_stored k t)), t)
plain c t = let (r, w) = write c t in (r, w.0)

abbrev pub with_cache :
    Driver → Texts → ℕ → Call → SettingTable × Store → Reply × (SettingTable × Store)
with_cache d texts now (reads k) (t, c) =
    let (r, c') = get_cached d texts now k t c in (read r, (t, c'))
with_cache d texts now call (t, c) = let (r, w) = write call t in (r, (w.0, touch now w.1 c))

-- Calls with their times, which do not go back.
abbrev pub IsTimely : ℕ → List (ℕ × Call) → Type 0
IsTimely now [] = Unit
IsTimely now ((t, call) ∷ calls) = (now ≤ t) × IsTimely t calls

unfoldable pub run_plain : List (ℕ × Call) → SettingTable → List Reply
run_plain [] t = []
run_plain ((now, call) ∷ calls) t = (plain call t).0 ∷ run_plain calls (plain call t).1

unfoldable pub run_cached : Driver → Texts → List (ℕ × Call) → SettingTable × Store → List Reply
run_cached d texts [] s = []
run_cached d texts ((now, call) ∷ calls) s =
    (with_cache d texts now call s).0 ∷ run_cached d texts calls (with_cache d texts now call s).1

write-Change :
    (call : Call) (t : SettingTable) → IsTable t → Change t (write call t).1.0 (write call t).1.1
write-Change (reads k) t h = nothing_changed refl
write-Change (sets k v kind) t h = set_setting-Change t h k v kind
write-Change (creates r) t h = create_setting-Change t h r
write-Change (updates i u) t h = update_setting-Change t h i u
write-Change (deletes i) t h = delete_setting-Change t h i

write-IsTable : (call : Call) (t : SettingTable) → IsTable t → IsTable (write call t).1.0
write-IsTable (reads k) t h = h
write-IsTable (sets k v kind) t h = set_setting-IsTable t h k v kind
write-IsTable (creates r) t h = create_setting-IsTable t h r
write-IsTable (updates i u) t h = update_setting-IsTable t h i u
write-IsTable (deletes i) t h = delete_setting-IsTable t h i

module _ (d : Driver) (texts : Texts) (f : IsFaithful d texts) where
  -- One call: the same reply and the same table, and a coherent cache.
  one_call :
      (now : ℕ) (call : Call) (t : SettingTable) (c : Store)
      → IsTable t
      → IsCoherent now t c
      → ((with_cache d texts now call (t, c)).0 ≡ (plain call t).0)
        × ((with_cache d texts now call (t, c)).1.0 ≡ (plain call t).1)
        × IsCoherent now (plain call t).1 (with_cache d texts now call (t, c)).1.1
        × IsTable (plain call t).1
  one_call now (reads k) t c h co =
      let (reply, after) = get_cached-reads d texts f now k t c co in
      (ap Reply.read reply, refl, after, h)
  one_call now (sets k v kind) t c h co = (
    refl,
    refl,
    touch-IsCoherent now t _ c co (write-Change (sets k v kind) t h),
    write-IsTable (sets k v kind) t h,
  )
  one_call now (creates r) t c h co = (
    refl,
    refl,
    touch-IsCoherent now t _ c co (write-Change (creates r) t h),
    write-IsTable (creates r) t h,
  )
  one_call now (updates i u) t c h co = (
    refl,
    refl,
    touch-IsCoherent now t _ c co (write-Change (updates i u) t h),
    write-IsTable (updates i u) t h,
  )
  one_call now (deletes i) t c h co = (
    refl,
    refl,
    touch-IsCoherent now t _ c co (write-Change (deletes i) t h),
    write-IsTable (deletes i) t h,
  )

  -- Where no two settings have one key or one id and the next id is free, every live entry of the cache for a
  -- setting says what the table says, and the driver and `str` give a cached text back as it was
  -- written: any sequence of reads, writes, creations, updates and deletions of settings, at times that do
  -- not go back, gets the same replies with the cache as without it.
  pub run_cached-run_plain :
      (calls : List (ℕ × Call)) (now : ℕ) (t : SettingTable) (c : Store)
      → IsTable t
      → IsCoherent now t c
      → IsTimely now calls
      → run_cached d texts calls (t, c) ≡ run_plain calls t
  unfolding run_cached run_plain
  run_cached-run_plain [] now t c h co timely = refl
  run_cached-run_plain ((later, call) ∷ calls) now t c h co timely =
      let (reply, table, after, h') =
        one_call later call t c h (IsCoherent-later now later t c timely.0 co) in
      let c' = (with_cache d texts later call (t, c)).1.1 in
      let rest = run_cached-run_plain calls later (plain call t).1 c' h' after timely.1 in
      rw reply (
        ap (λ rs. (plain call t).0 ∷ rs)
          (ap (λ t'. run_cached d texts calls (t', c')) table ∙ rest))
