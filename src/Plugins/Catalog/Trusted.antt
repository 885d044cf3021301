-- ===== src/Plugins/Catalog/Trusted.antt =====
-- A plugin of the catalogue is enabled only after it was verified against its manifest, of
-- plugins/registry.py.
use paper_live.Base.{
  ◌≡◌, ◌≢◌, refl, Bool, true, false, not, ◌||◌, ◌==◌, Option, none, some, List, [], ◌∷◌, String,
  Kind, ok, raise_if, after, after_keeps, >>=-eq-ok, arith, eq_iff, Option-cases, inl, inr,
}
use mathlib.Core.List.{Mem, mem-cons_self, mem-cons_of_mem}
use paper_live.Base.Dict.{get, put, put_all, string_eq}
use paper_live.Plugins.Manifest.{PluginManifest, validate}
use paper_live.Plugins.Catalog.{
  RegisteredPlugin, Catalog, is_github, add, find, enable, mismatch, verify,
}

-- A call of the catalogue; one that raises changes nothing.
pub data Call : Type 0 where
  adding : String → PluginManifest → Call
  verifying : String → String → String → Call
  enabling : String → Call

module _ (leaves : String → Bool) (trimmed : String → String) where
  unfoldable pub step : Call → Catalog → Catalog
  step (Call.adding url m) catalog = after catalog (add leaves trimmed url m catalog)
  step (Call.verifying k commit sha256) catalog = after catalog (verify k commit sha256 catalog)
  step (Call.enabling k) catalog = after catalog (enable k catalog)

  unfoldable pub run : List Call → Catalog → Catalog
  run [] catalog = catalog
  run (c ∷ calls) catalog = run calls (step c catalog)

-- What a manifest pins, if it pins a text that is not empty, is what was given.
abbrev pub Pins : Option String → String → Type 0
Pins none given = Unit
Pins (some pinned) given = pinned ≢ "" → pinned ≡ given

-- Some call of the list verified the plugin, with a commit and a hash that are not empty and are
-- what its manifest pins.
pub record Verified (calls : List Call) (plugin_id : String) (m : PluginManifest) : Type 0 where
  pub commit : String
  pub sha256 : String
  pub called : Mem (Call.verifying plugin_id commit sha256) calls
  pub commit_given : commit ≢ ""
  pub sha256_given : sha256 ≢ ""
  pub commit_pinned : Pins m.source_commit commit
  pub sha256_pinned : Pins m.sha256 sha256

Verified-Pins :
    (pinned : Option String) (given : String) → mismatch pinned given ≡ false → Pins pinned given
Verified-Pins none given h = tt
Verified-Pins (some pinned) given h =
    λ nonempty. ground (arith, h, nonempty, eq_iff pinned "", eq_iff pinned given)

-- What is known of the plugin under an id: if it is trusted, some call verified it; if it is
-- enabled, it is trusted.
abbrev Entry : List Call → String → RegisteredPlugin → Type 0
Entry calls k p =
    (p.trusted ≡ true → Verified calls k p.manifest) × (p.enabled ≡ true → p.trusted ≡ true)

record AllVerified (calls : List Call) (catalog : Catalog) : Type 0 where
  at_id : (k : String) (p : RegisteredPlugin) → get k catalog ≡ some p → Entry calls k p

put-AllVerified :
    (calls : List Call) (k : String) (p : RegisteredPlugin) (catalog : Catalog)
    → AllVerified calls catalog
    → Entry calls k p
    → AllVerified calls (put k p catalog)
put-AllVerified calls k p catalog h mine = record {
  at_id = put_all (Entry calls) k p catalog h.at_id mine;
}

find-eq :
    (k : String) (catalog : Catalog) {p : RegisteredPlugin}
    → find k catalog ≡ ok p
    → get k catalog ≡ some p
unfolding find
find-eq k catalog found = elim (Option-cases (get k catalog)) [
  | inl unknown ↦ absurd (ground (arith, found, unknown))
  | inr (p, known) ↦ ground (arith, found, known)
]

add-AllVerified :
    (leaves : String → Bool) (trimmed : String → String) (calls : List Call) (url : String)
    (m : PluginManifest) (catalog : Catalog)
    → AllVerified calls catalog
    → AllVerified calls (after catalog (add leaves trimmed url m catalog))
unfolding add
add-AllVerified leaves trimmed calls url m catalog h =
    after_keeps (AllVerified calls) catalog (add leaves trimmed url m catalog) h λ p c ran.
      let (_, _, rest) =
        >>=-eq-ok
          (raise_if (not (is_github url)) Kind.value_error
            "only HTTPS GitHub repositories are supported")
          _ ran in
      let (_, _, done) = >>=-eq-ok (validate leaves m) _ rest in
      let written : c
          ≡ put m.id
              (record {
                manifest = m;
                repository_url = trimmed url;
                trusted = false;
                enabled = false;
              })
              catalog =
        ground (arith, done) in
      rw written (
        put-AllVerified calls m.id _ catalog h
          (λ t. absurd (ground (arith, t)), λ t. ground (arith, t)))

enable-AllVerified :
    (calls : List Call) (k : String) (catalog : Catalog)
    → AllVerified calls catalog
    → AllVerified calls (after catalog (enable k catalog))
unfolding enable
enable-AllVerified calls k catalog h =
    after_keeps (AllVerified calls) catalog (enable k catalog) h λ p c ran.
      let (old, found, rest) = >>=-eq-ok (find k catalog) _ ran in
      let (_, trusted, done) =
        >>=-eq-ok
          (raise_if (not old.trusted) Kind.permission_error "plugin must be verified before enable")
          _ rest in
      let written : c ≡ put k (record old { enabled = true }) catalog = ground (arith, done) in
      let entry = h.at_id k old (find-eq k catalog found) in
      rw written (
        put-AllVerified calls k (record old { enabled = true }) catalog h
          (entry.0, λ on. ground (arith, trusted)))

verify-AllVerified :
    (calls : List Call) (k commit sha256 : String) (catalog : Catalog)
    → Mem (Call.verifying k commit sha256) calls
    → AllVerified calls catalog
    → AllVerified calls (after catalog (verify k commit sha256 catalog))
unfolding verify
verify-AllVerified calls k commit sha256 catalog called h =
    after_keeps (AllVerified calls) catalog (verify k commit sha256 catalog) h λ p c ran.
      let (old, _, rest) = >>=-eq-ok (find k catalog) _ ran in
      let (_, given, rest₁) =
        >>=-eq-ok
          (raise_if (commit == "" || sha256 == "") Kind.value_error
            "immutable commit and artifact hash are required")
          _ rest in
      let (_, pinned, rest₂) =
        >>=-eq-ok
          (raise_if (mismatch old.manifest.source_commit commit) Kind.value_error
            "commit does not match manifest")
          _ rest₁ in
      let (_, hashed, done) =
        >>=-eq-ok
          (raise_if (mismatch old.manifest.sha256 sha256) Kind.value_error
            "artifact hash does not match manifest")
          _ rest₂ in
      let written : c ≡ put k (record old { trusted = true; enabled = false }) catalog =
        ground (arith, done) in
      let seen : Verified calls k old.manifest = record {
        commit = commit;
        sha256 = sha256;
        called = called;
        commit_given = λ e. ground (arith, given, e, eq_iff commit "");
        sha256_given = λ e. ground (arith, given, e, eq_iff sha256 "");
        commit_pinned = Verified-Pins old.manifest.source_commit commit (ground (arith, pinned));
        sha256_pinned = Verified-Pins old.manifest.sha256 sha256 (ground (arith, hashed));
      } in
      rw written (
        put-AllVerified calls k (record old { trusted = true; enabled = false }) catalog h
          (λ _. seen, λ _. refl))

module _ (leaves : String → Bool) (trimmed : String → String) where
  run-AllVerified :
      (all calls : List Call) (catalog : Catalog)
      → ((c : Call) → Mem c calls → Mem c all)
      → AllVerified all catalog
      → AllVerified all (run leaves trimmed calls catalog)
  unfolding run step
  run-AllVerified all [] catalog among h = h
  run-AllVerified all (Call.adding url m ∷ calls) catalog among h =
      run-AllVerified all calls _ (λ c at. among c (mem-cons_of_mem _ at))
        (add-AllVerified leaves trimmed all url m catalog h)
  run-AllVerified all (Call.verifying k commit sha256 ∷ calls) catalog among h =
      run-AllVerified all calls _ (λ c at. among c (mem-cons_of_mem _ at))
        (verify-AllVerified all k commit sha256 catalog (among _ mem-cons_self) h)
  run-AllVerified all (Call.enabling k ∷ calls) catalog among h =
      run-AllVerified all calls _ (λ c at. among c (mem-cons_of_mem _ at))
        (enable-AllVerified all k catalog h)

  -- Whatever calls are made on an empty catalogue, a plugin that ends as enabled was verified by one
  -- of them: under its id, with a commit and a hash that are not empty, and each of which is what
  -- the plugin's manifest pins, if it pins one that is not empty.
  pub enabled-Verified :
      (calls : List Call) (plugin_id : String) (p : RegisteredPlugin)
      → get plugin_id (run leaves trimmed calls []) ≡ some p
      → p.enabled ≡ true
      → Verified calls plugin_id p.manifest
  unfolding get
  enabled-Verified calls plugin_id p found on =
      let known =
        run-AllVerified calls calls [] (λ c at. at)
          (record { at_id = λ k q there. absurd (ground (arith, there)) }) in
      let entry = known.at_id plugin_id p found in entry.0 (entry.1 on)
