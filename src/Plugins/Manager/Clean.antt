-- ===== src/Plugins/Manager/Clean.antt =====
-- What an installation leaves behind, of plugins/manager.py.
use paper_live.Base.{
  ◌≡◌, ◌≢◌, refl, sym, subst, ◌∙◌, Bool-cases, inl, inr, Bool, true, false, some, String, Result,
  Error, ok, err, is_ok, after, arith,
}
use paper_live.Base.Dict.{get, put, get-put_self, string_eq}
use paper_live.Base.Exec.{Exec, pure, lift, modify, zoom, attach, attempt, follow, ◌>>=◌}
use paper_live.Plugins.Lifecycle
use paper_live.Plugins.Lifecycle.{is_verified, PluginState, PluginRecord, Plugins}
use paper_live.Plugins.Skills
use paper_live.Plugins.Skills.{RegisteredSkill}
use paper_live.Plugins.Skills.Owned.{unregister_plugin-none}
use paper_live.Plugins.Manifest.{PluginManifest}
use paper_live.Plugins.Manager.{
  InstalledPlugin, PluginManager, with_lifecycle, on_lifecycle, unregister, installed_record,
  bring_up, settle, install_and_enable,
}

-- No skill of the plugin is found, and the plugin is unknown or REMOVED.
pub record IsWiped (plugin_id : String) (s : PluginManager) : Type 0 where
  pub no_skill :
      (id : String) (v : RegisteredSkill) → get id s.registry ≡ some v → v.plugin_id ≢ plugin_id
  pub gone : is_ok (Lifecycle.require plugin_id s.lifecycle) ≡ false

-- The plugin is ENABLED.
pub record IsUp (plugin_id : String) (s : PluginManager) : Type 0 where
  pub plugin : PluginRecord
  pub stored : get plugin_id s.lifecycle ≡ some plugin
  pub enabled : plugin.state ≡ PluginState.enabled

bind-ok :
    {S A B : Type 0} (m : Exec S A) (f : A → Exec S B) (s : S)
    → is_ok ((m >>= f) s).0 ≡ true
    → (a : A) × (t : S) × ((m >>= f) s ≡ f a t)
unfolding ◌>>=◌
bind-ok m f s returned = by_call (m s) returned
  where
    by_call :
        (p : Result _ × _) → is_ok (follow p f).0 ≡ true → (a : _) × (t : _) × (follow p f ≡ f a t)
    by_call (ok a, t) returned = (a, t, refl)
    by_call (err x, t) returned = absurd (ground (arith, returned))

attached :
    {A : Type 0} (s : PluginManager) (r : Result (A × Plugins))
    → (attach with_lifecycle s r).1.lifecycle ≡ after s.lifecycle r
attached s (ok (a, l)) = refl
attached s (err e) = refl

removed_gone :
    (plugin_id : String) (r : PluginRecord) (plugins : Plugins)
    → is_ok (
        Lifecycle.require plugin_id
          (put plugin_id (record r { state = PluginState.removed }) plugins))
      ≡ false
unfolding Lifecycle.require
removed_gone plugin_id r plugins =
    rw (get-put_self plugin_id (record r { state = PluginState.removed }) plugins) refl

remove-gone :
    (plugin_id : String) (plugins : Plugins) (found : Result PluginRecord)
    → Lifecycle.require plugin_id plugins ≡ found
    → is_ok (Lifecycle.require plugin_id (after plugins (Lifecycle.remove plugin_id plugins)))
      ≡ false
unfolding Lifecycle.remove
remove-gone plugin_id plugins (ok r) e = rw e (removed_gone plugin_id r plugins)
remove-gone plugin_id plugins (err x) e = rw e (rw e refl)

attached-registry :
    {A : Type 0} (s : PluginManager) (r : Result (A × Plugins))
    → (attach with_lifecycle s r).1.registry ≡ s.registry
attached-registry s (ok (a, l)) = refl
attached-registry s (err e) = refl

raised-IsWiped :
    {A : Type 0} (B : Type 0) (plugin_id : String) (e : Error) (p : Result A × PluginManager)
    → IsWiped plugin_id p.1
    → (is_ok (follow p (λ _. lift {A = B} (err e))).0 ≡ false)
      × IsWiped plugin_id (follow p (λ _. lift {A = B} (err e))).1
unfolding lift
raised-IsWiped B plugin_id e (ok a, s) w = (refl, w)
raised-IsWiped B plugin_id e (err x, s) w = (refl, w)

settle_err-IsWiped :
    (plugin_id : String) (i : InstalledPlugin) (e : Error) (s : PluginManager)
    → (is_ok (settle plugin_id i (err e) s).0 ≡ false)
      × IsWiped plugin_id (settle plugin_id i (err e) s).1
unfolding settle unregister on_lifecycle zoom modify ◌>>=◌
settle_err-IsWiped plugin_id i e s =
    let t : PluginManager = record s { registry = Skills.unregister_plugin plugin_id s.registry } in
    let ended = Lifecycle.remove plugin_id t.lifecycle in
    raised-IsWiped InstalledPlugin plugin_id e (attach with_lifecycle t ended) (record {
      no_skill = λ id v found.
          unregister_plugin-none plugin_id id s.registry
            (subst (λ r. get id r ≡ some v) (attached-registry t ended) found);
      gone =
          subst (λ l. is_ok (Lifecycle.require plugin_id l) ≡ false) (sym (attached t ended))
            (remove-gone plugin_id t.lifecycle (Lifecycle.require plugin_id t.lifecycle) refl);
    })

enable-IsUp :
    (plugin_id : String) (s : PluginManager) (found : Result PluginRecord)
    → Lifecycle.require plugin_id s.lifecycle ≡ found
    → is_ok (on_lifecycle (Lifecycle.enable plugin_id) s).0 ≡ true
    → IsUp plugin_id (on_lifecycle (Lifecycle.enable plugin_id) s).1
unfolding on_lifecycle zoom Lifecycle.enable
enable-IsUp plugin_id s (err x) e returned = absurd (ground (arith, e, returned))
enable-IsUp plugin_id s (ok r) e returned = elim (Bool-cases (is_verified r.state)) [
  | inl checked ↦ rw e (
      rw checked (record {
        plugin = record r { state = PluginState.enabled };
        stored = get-put_self plugin_id (record r { state = PluginState.enabled }) s.lifecycle;
        enabled = refl;
      }))
  | inr unchecked ↦ absurd (ground (arith, e, unchecked, returned))
]

bring_up-IsUp :
    (leaves : String → Bool) (plugin_id : String) (m : PluginManifest) (s : PluginManager)
    → is_ok (bring_up leaves plugin_id m s).0 ≡ true
    → IsUp plugin_id (bring_up leaves plugin_id m s).1
unfolding bring_up
bring_up-IsUp leaves plugin_id m s returned =
    let (_, t, first) = bind-ok _ _ s returned in
    let returned₁ = subst (λ p. is_ok p.0 ≡ true) first returned in
    let (_, u, second) = bind-ok _ _ t returned₁ in
    subst (λ p. IsUp plugin_id p.1) (sym (first ∙ second))
      (enable-IsUp plugin_id u (Lifecycle.require plugin_id u.lifecycle) refl
        (subst (λ p. is_ok p.0 ≡ true) second returned₁))

-- What a call of `install_and_enable` from `start` leads to.
pub data Outcome (plugin_id : String) (start : PluginManager)
    : Result InstalledPlugin → PluginManager → Type 0 where
  up :
      {i : InstalledPlugin} {s : PluginManager}
      → IsUp plugin_id s
      → Outcome plugin_id start (ok i) s
  untouched : {e : Error} → Outcome plugin_id start (err e) start
  wiped : {e : Error} {s : PluginManager} → IsWiped plugin_id s → Outcome plugin_id start (err e) s

abbrev pub Ends : String → PluginManager → Result InstalledPlugin × PluginManager → Type 0
Ends plugin_id start p = Outcome plugin_id start p.0 p.1

settle-Outcome :
    (plugin_id : String) (start : PluginManager) (i : InstalledPlugin)
    (p : Result PluginRecord × PluginManager)
    → (is_ok p.0 ≡ true → IsUp plugin_id p.1)
    → Outcome plugin_id start (settle plugin_id i p.0 p.1).0 (settle plugin_id i p.0 p.1).1
settle-Outcome plugin_id start i (ok r, s) is_up =
    unfold settle in unfold pure in Outcome.up (is_up refl)
settle-Outcome plugin_id start i (err e, s) is_up =
    let (failed, w) = settle_err-IsWiped plugin_id i e s in
    by_answer (settle plugin_id i (err e) s).0 failed w
  where
    by_answer :
        {s' : PluginManager} (answer : Result InstalledPlugin)
        → is_ok answer ≡ false
        → IsWiped plugin_id s'
        → Outcome plugin_id start answer s'
    by_answer (ok j) failed w = absurd (ground (arith, failed))
    by_answer (err x) failed w = Outcome.wiped w

added-Outcome :
    (plugin_id : String) (start : PluginManager) (leaves : String → Bool) (i : InstalledPlugin)
    (m : PluginManifest) (p : Result (Unit {0} × Plugins))
    → Ends plugin_id start (
        follow
          (attach with_lifecycle start p)
          (λ _. attempt (bring_up leaves plugin_id m) >>= settle plugin_id i))
unfolding attempt ◌>>=◌
added-Outcome plugin_id start leaves i m (ok (_, l)) =
    let s = with_lifecycle start l in
    settle-Outcome plugin_id start i (bring_up leaves plugin_id m s)
      (bring_up-IsUp leaves plugin_id m s)
added-Outcome plugin_id start leaves i m (err e) = Outcome.untouched

loaded-Outcome :
    (plugin_id : String) (start : PluginManager) (leaves : String → Bool) (i : InstalledPlugin)
    (loaded : Result PluginManifest)
    → Ends plugin_id start (
        (lift loaded >>= λ m. on_lifecycle (Lifecycle.add (installed_record i)) >>= λ _.
        attempt (bring_up leaves plugin_id m) >>= settle plugin_id i)
          start)
unfolding lift on_lifecycle zoom ◌>>=◌
loaded-Outcome plugin_id start leaves i (err e) = Outcome.untouched
loaded-Outcome plugin_id start leaves i (ok m) =
    added-Outcome plugin_id start leaves i m (Lifecycle.add (installed_record i) start.lifecycle)

-- A call of `install_and_enable` has one of three ends: it returns, and the plugin is ENABLED; it
-- raises with the manager as it was; or it raises, no skill of the plugin is found in the
-- registry, and the plugin is unknown or REMOVED. So a skill that collides, or a manifest that is
-- refused half way, leaves no skill of the plugin behind.
pub install_and_enable-Ends :
    (leaves : String → Bool) (installed : Result InstalledPlugin)
    (load : InstalledPlugin → Result PluginManifest) (plugin_id : String) (start : PluginManager)
    → Ends plugin_id start (install_and_enable leaves installed load plugin_id start)
unfolding install_and_enable lift ◌>>=◌
install_and_enable-Ends leaves (err e) load plugin_id start = Outcome.untouched
install_and_enable-Ends leaves (ok i) load plugin_id start =
    loaded-Outcome plugin_id start leaves i (load i)
