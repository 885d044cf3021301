-- ===== src/Plugins/Lifecycle/Verified.antt =====
-- A plugin is verified before it is enabled, of plugins/lifecycle.py.
use paper_live.Base.{
  ◌≡◌, refl, ap, inl, inr, Bool, true, false, Option, none, some, List, [], ◌∷◌, ◌++◌, String,
  after, arith, eq_iff, Option-cases, Bool-cases,
}
use paper_live.Base.Dict.{get, get-put, string_eq}
use paper_live.Plugins.Lifecycle.{
  PluginState, PluginRecord, Plugins, add, require, verify, enable, disable, remove,
}

-- A call of the lifecycle; one that raises changes nothing.
pub data Call : Type 0 where
  adding : PluginRecord → Call
  verifying enabling disabling removing : String → Call

unfoldable pub step : Call → Plugins → Plugins
step (Call.adding r) plugins = after plugins (add r plugins)
step (Call.verifying p) plugins = after plugins (verify p plugins)
step (Call.enabling p) plugins = after plugins (enable p plugins)
step (Call.disabling p) plugins = after plugins (disable p plugins)
step (Call.removing p) plugins = after plugins (remove p plugins)

unfoldable pub run : List Call → Plugins → Plugins
run [] plugins = plugins
run (c ∷ calls) plugins = run calls (step c plugins)

abbrev pub is_enabled : PluginState → Bool
is_enabled PluginState.enabled = true
is_enabled _ = false

-- The plugin is known, and ENABLED.
abbrev pub enabled_in : Option PluginRecord → Bool
enabled_in none = false
enabled_in (some r) = is_enabled r.state

abbrev pub verified_in : Option PluginRecord → Bool
verified_in none = false
verified_in (some r) = elim r.state [ PluginState.verified ↦ true | _ ↦ false ]

-- No plugin is added as ENABLED.
abbrev pub AddsNone : List Call → Type 0
AddsNone [] = Unit
AddsNone (Call.adding r ∷ calls) = (is_enabled r.state ≡ false) × AddsNone calls
AddsNone (c ∷ calls) = AddsNone calls

abbrev AddsSafe : Call → Type 0
AddsSafe (Call.adding r) = is_enabled r.state ≡ false
AddsSafe _ = Unit

step_enabled :
    (k : String) (c : Call) (plugins : Plugins)
    → AddsSafe c
    → enabled_in (get k plugins) ≡ false
    → enabled_in (get k (step c plugins)) ≡ true
    → verified_in (get k plugins) ≡ true
unfolding step add require verify enable disable remove
step_enabled k (Call.adding r) plugins safe h e = ground (arith, get-put r.plugin_id k r plugins)
step_enabled k (Call.verifying p) plugins safe h e = elim (Option-cases (get p plugins)) [
  | inl unknown ↦ ground (arith, unknown)
  | inr (r, known) ↦
      ground (arith, known, get-put p k (record r { state = PluginState.verified }) plugins)
]
step_enabled k (Call.enabling p) plugins safe h e = elim (Option-cases (get p plugins)) [
  | inl unknown ↦ ground (arith, unknown)
  | inr (r, known) ↦
      ground
        (arith, known, eq_iff p k, get-put p k (record r { state = PluginState.enabled }) plugins)
]
step_enabled k (Call.disabling p) plugins safe h e = elim (Option-cases (get p plugins)) [
  | inl unknown ↦ ground (arith, unknown)
  | inr (r, known) ↦
      ground (arith, known, get-put p k (record r { state = PluginState.disabled }) plugins)
]
step_enabled k (Call.removing p) plugins safe h e = elim (Option-cases (get p plugins)) [
  | inl unknown ↦ ground (arith, unknown)
  | inr (r, known) ↦
      ground (arith, known, get-put p k (record r { state = PluginState.removed }) plugins)
]

adds_split : (c : Call) (calls : List Call) → AddsNone (c ∷ calls) → AddsSafe c × AddsNone calls
adds_split (Call.adding r) calls h = h
adds_split (Call.verifying p) calls h = (tt, h)
adds_split (Call.enabling p) calls h = (tt, h)
adds_split (Call.disabling p) calls h = (tt, h)
adds_split (Call.removing p) calls h = (tt, h)

-- Whatever calls are made, a plugin that ends as ENABLED, did not begin so and is never added so was
-- VERIFIED on the way: some first part of the calls leads there.
pub enabled_needs_verify :
    (k : String) (calls : List Call) (plugins : Plugins)
    → AddsNone calls
    → enabled_in (get k plugins) ≡ false
    → enabled_in (get k (run calls plugins)) ≡ true
    → (first : List Call) × (rest : List Call) × (calls ≡ first ++ rest)
      × (verified_in (get k (run first plugins)) ≡ true)
unfolding run
enabled_needs_verify k [] plugins safe h e = absurd (ground arith)
enabled_needs_verify k (c ∷ calls) plugins safe h e =
    let (head_safe, rest_safe) = adds_split c calls safe in
    elim (Bool-cases (enabled_in (get k (step c plugins)))) [
      | inl arrived ↦ ([], c ∷ calls, refl, step_enabled k c plugins head_safe h arrived)
      | inr elsewhere ↦
          let (first, rest, split, verified) =
            enabled_needs_verify k calls (step c plugins) rest_safe elsewhere e in
          (c ∷ first, rest, ap (λ l. c ∷ l) split, verified)
    ]
