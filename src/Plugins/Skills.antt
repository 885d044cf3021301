-- ===== src/Plugins/Skills.antt =====
-- paper_live/plugins/skill_registry.py: which plugin provides a skill.
pub mod Owned
use paper_live.Base.{
  Bool, true, false, ◌&&◌, not, Option, none, some, List, [], ◌∷◌, String, ◌==◌, Result, Kind, ok,
  err, raise, raise_if, or_raise, ◌>>=◌, ◌>>◌, if◌then◌else◌,
}
use paper_live.Base.Dict.{Dict, get, put, string_eq}
use paper_live.Base.Text.{concat}

pub record RegisteredSkill : Type 0 where
  pub skill_id : String
  pub plugin_id : String
  pub version : String
  pub entrypoint : String

-- `SkillRegistry`: its `_skills`.
abbrev pub Skills : Type 0
Skills = Dict String RegisteredSkill

-- `existing and existing.plugin_id != skill.plugin_id`
abbrev collides : RegisteredSkill → Option RegisteredSkill → Bool
collides skill none = false
collides skill (some existing) = not (existing.plugin_id == skill.plugin_id)

unfoldable pub register : RegisteredSkill → Skills → Result (Unit {0} × Skills)
register skill skills = do
  raise_if (collides skill (get skill.skill_id skills)) Kind.registry_error
      (concat ("skill id collision: " ∷ skill.skill_id ∷ []))
  ok (tt, put skill.skill_id skill skills)

-- The deletion of the keys whose skill is the plugin's.
unfoldable pub unregister_plugin : String → Skills → Skills
unregister_plugin plugin_id [] = []
unregister_plugin plugin_id ((k, v) ∷ skills) =
    let rest = unregister_plugin plugin_id skills in
    if v.plugin_id == plugin_id then rest else (k, v) ∷ rest

unfoldable pub resolve : String → Skills → Result RegisteredSkill
resolve skill_id skills =
    or_raise (get skill_id skills) Kind.registry_error (concat ("unknown skill: " ∷ skill_id ∷ []))
