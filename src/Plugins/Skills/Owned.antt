-- ===== src/Plugins/Skills/Owned.antt =====
-- A skill stays with its plugin, of plugins/skill_registry.py.
use paper_live.Base.{
  ◌≡◌, ◌≢◌, refl, some, [], ◌∷◌, String, ◌==◌, after, arith, eq_iff, Bool-cases, inl, inr,
}
use paper_live.Base.Dict.{get, get-put, string_eq}
use paper_live.Plugins.Skills.{RegisteredSkill, Skills, register, unregister_plugin}

-- What `register` does to a skill that is known: it keeps its plugin, whatever is registered, also
-- under the same skill id, and whether the call returns or raises.
register-owner :
    (skill known : RegisteredSkill) (id : String) (skills : Skills)
    → get id skills ≡ some known
    → (now : RegisteredSkill) × (get id (after skills (register skill skills)) ≡ some now)
      × (now.plugin_id ≡ known.plugin_id)
unfolding register
register-owner skill known id skills e = elim (Bool-cases (skill.skill_id == id)) [
  | inl same ↦ elim (Bool-cases (known.plugin_id == skill.plugin_id)) [
    | inl own ↦ (
      skill,
      ground (arith, get-put skill.skill_id id skill skills, eq_iff skill.skill_id id),
      ground (arith, eq_iff known.plugin_id skill.plugin_id),
    )
    | inr foreign ↦ (known, ground (arith, eq_iff skill.skill_id id), refl)
  ]
  | inr other ↦ (known, ground (arith, get-put skill.skill_id id skill skills), refl)
]

-- After `unregister_plugin` no skill of the plugin is found.
pub unregister_plugin-none :
    (plugin_id id : String) (skills : Skills) {v : RegisteredSkill}
    → get id (unregister_plugin plugin_id skills) ≡ some v
    → v.plugin_id ≢ plugin_id
unfolding get unregister_plugin
unregister_plugin-none plugin_id id [] h = ground arith
unregister_plugin-none plugin_id id ((k, w) ∷ skills) {v} h =
    ground (arith, unregister_plugin-none plugin_id id skills {v = v}, eq_iff w.plugin_id plugin_id)
