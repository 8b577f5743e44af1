-- ===== src/Auth/Conf/Same.antt =====
-- The search for ovh.conf in two worlds whose configuration files are the same.
use ovh_cli.Prelude.{String, List, ◌∷◌, [], some, ◌≡◌, refl, sym, ◌∙◌, ap, arith, inl, inr}
use ovh_cli.Auth.World.{Services, World}
use ovh_cli.Auth.Conf.{load_default_conf, find_conf, load_ini}
use ovh_cli.Auth.Conf.Files.{paths_none, paths_some, home_cases}

module _ (S : Services) where
  open S use {disk}

  abbrev pub IsSameAt : World S → World S → String → Type 0
  IsSameAt w w' p =
      (disk.stat w'.files p ≡ disk.stat w.files p)
      × (disk.read_file w'.files p ≡ disk.read_file w.files p)

  -- The files that the search looks at.
  pub record IsSameConf (w w' : World S) : Type 0 where
    pub home : w'.home ≡ w.home
    pub at_local : IsSameAt w w' "ovh.conf"
    pub at_home : (h : String) → w.home ≡ some h → IsSameAt w w' (S.join h ".ovh.conf")
    pub at_config : IsSameAt w w' S.config_file
    pub at_system : IsSameAt w w' "/etc/ovh.conf"

  find_conf-same :
      (w w' : World S) (p : String) (rest : List String)
      → IsSameAt w w' p
      → find_conf S w' rest ≡ find_conf S w rest
      → find_conf S w' (p ∷ rest) ≡ find_conf S w (p ∷ rest)
  unfolding find_conf load_ini
  find_conf-same w w' p rest (stat, read) h = ground (arith, stat, read, h)

  find_conf-nil : (w w' : World S) → find_conf S w' [] ≡ find_conf S w []
  unfolding find_conf
  find_conf-nil w w' = refl

  pub load_default_conf-same :
      (w w' : World S) → IsSameConf w w' → load_default_conf S w' ≡ load_default_conf S w
  unfolding load_default_conf
  load_default_conf-same w w' h =
      let rest =
        find_conf-same w w' _ _ h.at_config
          (find_conf-same w w' _ _ h.at_system (find_conf-nil w w')) in
      elim (home_cases S w) [
        | inl e ↦
            ap (find_conf S w') (paths_none S w' (h.home ∙ e))
            ∙ find_conf-same w w' _ _ h.at_local rest
            ∙ sym (ap (find_conf S w) (paths_none S w e))
        | inr (j, e) ↦
            ap (find_conf S w') (paths_some S w' j (h.home ∙ e))
            ∙ find_conf-same w w' _ _ h.at_local (find_conf-same w w' _ _ (h.at_home j e) rest)
            ∙ sym (ap (find_conf S w) (paths_some S w j e))
      ]
