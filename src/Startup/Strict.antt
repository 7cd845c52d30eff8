-- ===== src/Startup/Strict.antt =====
-- What a file that `check-config` accepts means for the daemon.
use tpm2_autoenroll.Base.{
  if◌then◌else◌, is_empty, All, Bytes, ◌≡◌, refl, inl, inr, false, not, ◌&&◌, some, List, [], ◌∷◌,
  map,
}
use tpm2_autoenroll.Base.Exec.{◌>>=◌, map_err, map_err_bind-eq-ok, lift}
use tpm2_autoenroll.Base.Results.{ok, Result-cases, map_err-eq-ok}
use tpm2_autoenroll.Config.{ConfigError, Volume, Loaded, parse}
use tpm2_autoenroll.Config.Names.{entry_names, parse-names}
use tpm2_autoenroll.Config.Volumes.{IsValid, parse-IsValid}
use tpm2_autoenroll.Json.{Json}
use tpm2_autoenroll.Os.{Os, Sys, ask}
use tpm2_autoenroll.Startup.Gone.{failure≢success}
use tpm2_autoenroll.Startup.{
  unreadable, invalid, exit_success, exit_failure, read, load, check_config,
}

none_rejected :
    (rejected : List (Bytes × ConfigError)) (volumes : List Volume)
    → (if is_empty rejected && not (is_empty volumes) then exit_success else exit_failure)
      ≡ exit_success
    → (rejected ≡ []) × (is_empty volumes ≡ false)
none_rejected [] [] h = absurd (failure≢success h)
none_rejected [] (v ∷ volumes) h = (refl, refl)
none_rejected (r ∷ rejected) volumes h = absurd (failure≢success h)

module _ (os : Os) (json : Json) where
  -- The file is text, and the daemon gets a volume from each of its entries, in order, all of them
  -- valid, and at least one.
  pub record ServesAll (file : Bytes) (s : Sys os) : Type 0 where
    pub text : Bytes
    pub volumes : List Volume
    pub is_text : (ask os (os.read_text file) s).0 ≡ ok text
    pub loads : (load os json file s).0 ≡ ok volumes
    pub complete : entry_names json text ≡ some (map (λ v. v.name) volumes)
    pub valid : All IsValid volumes
    pub given : is_empty volumes ≡ false

  read-parse :
      (file : Bytes) (s : Sys os) (loaded : Loaded)
      → (read os json file s).0 ≡ ok loaded
      → (text : Bytes) × ((ask os (os.read_text file) s).0 ≡ ok text)
        × (parse json text ≡ ok loaded)
  unfolding read ◌>>=◌
  read-parse file s loaded h =
      let found =
        map_err_bind-eq-ok unreadable (ask os (os.read_text file))
          (λ text. map_err invalid (lift (parse json text))) s h in
      (found.0, found.1, map_err-eq-ok invalid (parse json found.0) found.2)

  -- When `check-config` accepts a file, the daemon that reads the same serves a valid volume for each
  -- entry of the file, and there is one; none is silently left out.
  pub check_config-ServesAll :
      (file : Bytes) (s : Sys os)
      → (check_config os json file s).0 ≡ exit_success
      → ServesAll file s
  unfolding check_config load
  check_config-ServesAll file s h = elim (Result-cases (read os json file s).0) [
    | inr (why, e) ↦ absurd (failure≢success (rw (check_config, e) at h))
    | inl (loaded, e) ↦
        let checked = none_rejected loaded.rejected loaded.volumes (rw (check_config, e) at h) in
        let found = read-parse file s loaded e in
        record {
          text = found.0;
          volumes = loaded.volumes;
          is_text = found.1;
          loads = rw (load, e) refl;
          complete = parse-names json found.0 loaded found.2 checked.0;
          valid = parse-IsValid json found.0 loaded found.2;
          given = checked.1;
        }
  ]
