-- ===== src/Auth/HostsFile/Sessions/Refinement.antt =====
-- The operations on hosts.yml implement those on the map of sessions, failures included.
use ovh_cli.Prelude.{
  String, false, Option, none, some, List, [], ◌∷◌, ◌≡◌, ◌≢◌, refl, ◌∙◌, sym, ap, subst, arith,
  eq_iff,
}
use ovh_cli.Prelude.Dict.{lookup}
use ovh_cli.Errors.{Result, ok, err, panic}
use ovh_cli.Effect.{chain_lift-eq-ok}
use ovh_cli.Platform.Disk.{IsAtomic}
use ovh_cli.Platform.Codec.{IsFaithful}
use ovh_cli.Platform.Keyring.{IsKeyed}
use ovh_cli.Auth.Credentials.{Credentials}
use ovh_cli.Auth.Hosts.{HostProfile, HostRegion, HostsFile}
use ovh_cli.Auth.Keyring.{keyring_delete}
use ovh_cli.Auth.World.{Services, World}
use ovh_cli.Auth.Conf.Files.{IsFileOrMissing}
use ovh_cli.Auth.HostsFile.{
  load_hosts_yml, write_hosts_yml, entry_of, find_profile, with_profile, without_profile,
  hosts_or_new, write_hosts_creds, delete_hosts_creds, rewrite_hosts,
}
use ovh_cli.Auth.HostsFile.Tokens.{apply_tokens-put}
use ovh_cli.Auth.HostsFile.Files.{
  SessionWritten, write_hosts_creds-SessionWritten, load_hosts_yml-write,
  write_hosts_yml-IsFileOrMissing,
}
use ovh_cli.Auth.HostsFile.Sessions.{
  Sessions, Op, put, drop, session_of, applied, outcome, replay, exec, run,
}
use ovh_cli.Auth.HostsFile.Sessions.Entries.{
  find_profile-with_profile_if, find_profile-without_profile,
}
use ovh_cli.Auth.HostsFile.Sessions.Unchanged.{IsSame, load_hosts_yml-IsSame, exec-IsSame}

-- hosts.yml can be read and holds these sessions.
pub record Shows (S : Services) (w : World S) (m : Sessions) : Type 0 where
  pub loaded : Option HostsFile
  pub load : load_hosts_yml S w.files ≡ ok loaded
  pub entries : (region profile : String) → entry_of S loaded region profile ≡ m region profile
  pub regular : IsFileOrMissing (S.disk.stat w.files S.hosts_file)

pub find_profile-hosts_or_new :
    (S : Services) (o : Option HostsFile) (region profile : String)
    → find_profile (hosts_or_new S o) region profile ≡ entry_of S o region profile
unfolding find_profile lookup
find_profile-hosts_or_new S none region profile = refl
find_profile-hosts_or_new S (some hf) region profile = refl

module _ (S : Services) (A : IsAtomic S.disk) (K : IsKeyed S.ring) (Y : IsFaithful S.yaml)
    (apart : S.disk.is_within S.hosts_file (S.dir_of S.hosts_file) ≡ false) where
  open S use {disk, ring}

  -- A world with the same hosts.yml shows the same sessions.
  IsSame-Shows :
      (w w' : World S) (m : Sessions)
      → Shows S w m
      → IsSame S A apart w.files w'.files
      → Shows S w' m
  IsSame-Shows w w' m h same = record {
    loaded = h.loaded;
    load = load_hosts_yml-IsSame S A apart w.files w'.files same ∙ h.load;
    entries = h.entries;
    regular = subst IsFileOrMissing (sym same.0) h.regular;
  }

  -- A write that succeeds shows the sessions of the document that was written.
  written-Shows :
      (w w' : World S) (m m' : Sessions) (f : HostsFile) (files : disk.State)
      → Shows S w m
      → write_hosts_yml S f w.files ≡ (ok tt, files)
      → w'.files ≡ files
      → ((region profile : String) → find_profile f region profile ≡ m' region profile)
      → Shows S w' m'
  written-Shows w w' m m' f files h saved e entries = record {
    loaded = some f;
    load = rw e (load_hosts_yml-write S A Y apart h.loaded f w.files files h.regular h.load saved);
    entries = entries;
    regular =
        subst (λ s. IsFileOrMissing (disk.stat s S.hosts_file)) (sym e)
          (write_hosts_yml-IsFileOrMissing S A Y apart h.loaded f w.files files h.regular h.load
            saved);
  }

  write_hosts_creds-Shows :
      (c : Credentials) (storage : String) (w w' : World S) (m : Sessions)
      → Shows S w m
      → write_hosts_creds S c storage w ≡ (ok tt, w')
      → Shows S w' (applied (put c storage) m)
  write_hosts_creds-Shows c storage w w' m h done =
      let ss = write_hosts_creds-SessionWritten S c storage w w' done in
      let entry : (region profile : String)
          → find_profile (hosts_or_new S ss.loaded) region profile ≡ m region profile =
        λ region profile.
          find_profile-hosts_or_new S ss.loaded region profile ∙ entries_of ss region profile in
      let new : record ss.profile { expiry = c.expiry }
          ≡ session_of c storage (m c.region c.profile) =
        ap (λ (p : HostProfile). record p { expiry = c.expiry })
          (apply_tokens-put S K c storage _ w.secrets ss.profile ss.secrets ss.applied)
        ∙ ap (λ o. session_of c storage o) (entry c.region c.profile) in
      written-Shows w w' m _
        (with_profile S (hosts_or_new S ss.loaded) c (record ss.profile { expiry = c.expiry }))
        ss.files h ss.saved (ap (λ x. x.files) ss.result)
        λ region profile.
          find_profile-with_profile_if S (hosts_or_new S ss.loaded) c _ region profile
          ∙ rw (entry region profile, new) refl
    where
      entries_of :
          (ss : SessionWritten S c storage w w') (region profile : String)
          → entry_of S ss.loaded region profile ≡ m region profile
      entries_of ss region profile =
          let e : h.loaded ≡ ss.loaded = ground (arith, h.load, ss.load) in
          subst (λ o. entry_of S o region profile ≡ m region profile) e (h.entries region profile)

  -- A region that is not there has no sessions.
  drop-missing :
      (hf : HostsFile) (gone profile : String)
      → lookup gone hf.hosts ≡ none
      → find_profile hf gone profile ≡ none
  unfolding find_profile lookup
  drop-missing hf gone profile h = rw h refl

  rewrite_hosts-Shows :
      (gone gone_profile : String) (loaded : Option HostsFile) (w w' : World S) (m : Sessions)
      → Shows S w m
      → ((region profile : String) → entry_of S loaded region profile ≡ m region profile)
      → rewrite_hosts S w gone gone_profile loaded ≡ (ok tt, w')
      → Shows S w' (applied (drop gone gone_profile) m)
  unfolding rewrite_hosts
  rewrite_hosts-Shows gone gone_profile none w w' m h entries done =
      let e : w ≡ w' = ground arith in
      subst (λ x. Shows S x (applied (drop gone gone_profile) m)) e
        (record {
          loaded = h.loaded;
          load = h.load;
          entries =
              λ region profile. ground (arith, h.entries region profile, entries region profile);
          regular = h.regular;
        })
  rewrite_hosts-Shows gone gone_profile (some hf) w w' m h entries done =
      by_region (lookup gone hf.hosts) refl
    where
      by_region :
          (o : Option HostRegion)
          → lookup gone hf.hosts ≡ o
          → Shows S w' (applied (drop gone gone_profile) m)
      by_region none e =
          let q : w ≡ w' = ground arith in
          subst (λ x. Shows S x (applied (drop gone gone_profile) m)) q
            (record {
              loaded = h.loaded;
              load = h.load;
              entries = λ region profile. ground (
                arith,
                h.entries region profile,
                entries region profile,
                drop-missing hf gone profile e,
                eq_iff gone region,
              );
              regular = h.regular;
            })
      by_region (some r) e =
          let f = without_profile S hf gone gone_profile r in
          written-Shows w w' m _ (without_profile S hf gone gone_profile r)
            (write_hosts_yml S (without_profile S hf gone gone_profile r) w.files).1 h
            (ground arith) (ground arith)
            λ region profile.
              find_profile-without_profile S hf gone gone_profile r e region profile
              ∙ rw (entries region profile) refl

  delete_hosts_creds-Shows :
      (gone gone_profile : String) (w w' : World S) (m : Sessions)
      → Shows S w m
      → delete_hosts_creds S gone gone_profile w ≡ (ok tt, w')
      → Shows S w' (applied (drop gone gone_profile) m)
  unfolding delete_hosts_creds
  delete_hosts_creds-Shows gone gone_profile w w' m h done =
      let s₁ = (keyring_delete ring gone gone_profile "access_token" w.secrets).1 in
      let s₂ = (keyring_delete ring gone gone_profile "refresh_token" s₁).1 in
      let w₁ : World S = record w { secrets = s₂ } in
      let (hf, load, r) = chain_lift-eq-ok (load_hosts_yml S w.files) w₁ _ done in
      let e : h.loaded ≡ hf = ground (arith, h.load, load) in
      rewrite_hosts-Shows gone gone_profile hf w₁ w' m (IsSame-Shows w w₁ m h (refl, refl))
        (subst (λ o. (region profile : String) → entry_of S o region profile ≡ m region profile) e
          h.entries)
        r

  step-Shows :
      (op : Op) (w : World S) (m : Sessions)
      → Shows S w m
      → Shows S (exec S op w).1 (outcome (exec S op w).0 op m)
  step-Shows op w m h = by_result (exec S op w) refl
    where
      done : (op : Op) (w' : World S) → exec S op w ≡ (ok tt, w') → Shows S w' (applied op m)
      done (put c storage) w' e = write_hosts_creds-Shows c storage w w' m h e
      done (drop gone gone_profile) w' e = delete_hosts_creds-Shows gone gone_profile w w' m h e

      failed :
          (w' : World S) (r : Result (Unit {0})) → exec S op w ≡ (r, w') → r ≢ ok tt → Shows S w' m
      failed w' r e ne =
          IsSame-Shows w w' m h (exec-IsSame S A apart op h.loaded w w' r h.load e ne)

      by_result :
          (p : Result (Unit {0}) × World S) → exec S op w ≡ p → Shows S p.1 (outcome p.0 op m)
      by_result (ok tt, w') e = done op w' e
      by_result (err x, w') e = failed w' _ e (λ q. cc)
      by_result (panic x, w') e = failed w' _ e (λ q. cc)

  -- hosts.yml implements a map from regions and profiles to sessions: after any sequence of writes
  -- and deletions, each of which may succeed or fail, it can be read and holds for every region and
  -- profile what the map holds after the operations that succeeded, if hosts.yml could be read
  -- before, as a file or as not there, and lies outside its own directory's parents. An operation
  -- that fails, wherever it fails, leaves the map as it was.
  pub run-Shows :
      (ops : List Op) (w : World S) (m : Sessions)
      → Shows S w m
      → Shows S (run S ops w).1 (replay (run S ops w).0 m)
  run-Shows [] w m h = h
  run-Shows (op ∷ ops) w m h = run-Shows ops (exec S op w).1 _ (step-Shows op w m h)
