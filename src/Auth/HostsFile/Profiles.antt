-- ===== src/Auth/HostsFile/Profiles.antt =====
-- Sessions of different profiles are apart, in hosts.yml and in the keyring.
use Prim.Native.Char.{code}
use ovh_cli.Prelude.{
  ℕ, String, ◌<>◌, false, Option, some, none, ◌≡◌, ◌≢◌, refl, sym, ◌∙◌, ap, arith, ◌==◌, eq_refl,
  ne-test,
}
use ovh_cli.Prelude.Dict.{lookup, lookup-insert}
use text.Mathlib.TextLemmas.{nil-append, cons-append, append_cancel_left, append_cancel_right}
use ovh_cli.Errors.{ok}
use ovh_cli.Platform.Disk.{IsAtomic}
use ovh_cli.Platform.Keyring.{IsKeyed}
use ovh_cli.Platform.Codec.{IsFaithful}
use ovh_cli.Auth.Credentials.{Credentials}
use ovh_cli.Auth.Hosts.{HostProfile, HostsFile}
use ovh_cli.Auth.Keyring.{keyring_user, keyring_get}
use ovh_cli.Auth.World.{Services, World}
use ovh_cli.Auth.Conf.Files.{IsFileOrMissing}
use ovh_cli.Auth.Conf.Kept.{resolve_secret-same, bind-cong}
use ovh_cli.Auth.HostsFile.{
  TokenField, access_token, refresh_token, token_key, stored_token, find_profile, with_profile,
  read_token, read_profile, read_hosts_creds, write_hosts_creds, entry_of, hosts_or_new,
}
use ovh_cli.Auth.HostsFile.Tokens.{apply_tokens-Applied}
use ovh_cli.Auth.HostsFile.Files.{write_hosts_creds-SessionWritten, load_hosts_yml-write}

-- The codes of the last seven characters.
record Tail : Type 0 where
  c₁ : ℕ
  c₂ : ℕ
  c₃ : ℕ
  c₄ : ℕ
  c₅ : ℕ
  c₆ : ℕ
  c₇ : ℕ

push : ℕ → Tail → Tail
push c t = record { c₁ = t.c₂; c₂ = t.c₃; c₃ = t.c₄; c₄ = t.c₅; c₅ = t.c₆; c₆ = t.c₇; c₇ = c }

tail_of : Tail → String → Tail
tail_of t String.[] = t
tail_of t (String.◌∷◌ c s) = tail_of (push (code c) t) s

tail_of-append : (t : Tail) (s u : String) → tail_of t (s <> u) ≡ tail_of (tail_of t s) u
unfolding tail_of
tail_of-append t String.[] u = rw nil-append refl
tail_of-append t (String.◌∷◌ c s) u = rw cons-append (tail_of-append (push (code c) t) s u)

-- The seventh character from the end: `s` or `h`.
seventh : TokenField → ℕ
seventh access_token = b's'
seventh refresh_token = b'h'

tail-token : (t : Tail) (tf : TokenField) → (tail_of t (":" <> token_key tf)).c₁ ≡ seventh tf
unfolding tail_of push token_key seventh
tail-token t access_token = refl
tail-token t refresh_token = refl

empty_tail : Tail
empty_tail = record { c₁ = 0; c₂ = 0; c₃ = 0; c₄ = 0; c₅ = 0; c₆ = 0; c₇ = 0 }

same_seventh :
    (p q : String) (tf uf : TokenField)
    → p <> (":" <> token_key tf) ≡ q <> (":" <> token_key uf)
    → seventh tf ≡ seventh uf
same_seventh p q tf uf e =
    sym (tail-token (tail_of empty_tail p) tf)
    ∙ ap (λ t. t.c₁) (sym (tail_of-append empty_tail p (":" <> token_key tf)))
    ∙ ap (λ s. (tail_of empty_tail s).c₁) e
    ∙ ap (λ t. t.c₁) (tail_of-append empty_tail q (":" <> token_key uf))
    ∙ tail-token (tail_of empty_tail q) uf

seventh-ne : seventh access_token ≢ seventh refresh_token
unfolding seventh
seventh-ne h = omega arith

-- Tokens of different profiles of a region have different users, whatever the profiles are called.
profile_inj :
    (p q : String) (tf uf : TokenField)
    → p <> (":" <> token_key tf) ≡ q <> (":" <> token_key uf)
    → p ≡ q
profile_inj p q access_token access_token e =
    append_cancel_right p q (":" <> token_key access_token) e
profile_inj p q refresh_token refresh_token e =
    append_cancel_right p q (":" <> token_key refresh_token) e
profile_inj p q access_token refresh_token e =
    absurd (seventh-ne (same_seventh p q access_token refresh_token e))
profile_inj p q refresh_token access_token e =
    absurd (seventh-ne (sym (same_seventh p q refresh_token access_token e)))

profiles_apart :
    (region p q : String) (tf uf : TokenField)
    → p ≢ q
    → (keyring_user region p (token_key tf) == keyring_user region q (token_key uf)) ≡ false
unfolding keyring_user
profiles_apart region p q tf uf ne =
    ne-test _ _
      λ e. ne (profile_inj p q tf uf (append_cancel_left ":" _ _ (append_cancel_left region _ _ e)))

find_profile-with_profile_ne :
    (S : Services) (hf : HostsFile) (c : Credentials) (p : HostProfile) (q : String)
    → c.profile ≢ q
    → find_profile (with_profile S hf c p) c.region q ≡ find_profile hf c.region q
unfolding find_profile with_profile
find_profile-with_profile_ne S hf c p q ne =
    rw lookup-insert (rw eq_refl (rw lookup-insert (rw (ne-test c.profile q ne) refl)))

module _ (S : Services) (A : IsAtomic S.disk) (K : IsKeyed S.ring) (Y : IsFaithful S.yaml) where
  open S use {ring}

  read_token-same :
      (s s' : ring.State) (p : HostProfile) (region profile : String) (tf : TokenField)
      (c : Credentials)
      → keyring_get ring s' region profile (token_key tf)
        ≡ keyring_get ring s region profile (token_key tf)
      → read_token S s' p region profile tf c ≡ read_token S s p region profile tf c
  unfolding read_token
  read_token-same s s' p region profile tf c h =
      rw (resolve_secret-same S s s' (stored_token tf p) region profile (token_key tf) h) refl

  pub read_profile-same :
      (s s' : ring.State) (c : Credentials) (region profile : String) (entry : Option HostProfile)
      → ((tf : TokenField)
          → keyring_get ring s' region profile (token_key tf)
            ≡ keyring_get ring s region profile (token_key tf))
      → read_profile S s' c region profile entry ≡ read_profile S s c region profile entry
  unfolding read_profile
  read_profile-same s s' c region profile none h = refl
  read_profile-same s s' c region profile (some p) h =
      bind-cong _ _ _ _ (read_token-same s s' p region profile access_token c (h access_token))
        (λ c₁.
          bind-cong _ _ _ _
            (read_token-same s s' p region profile refresh_token c₁ (h refresh_token)) (λ c₂. refl))

  entry-same :
      (loaded : Option HostsFile) (c : Credentials) (p : HostProfile) (q : String)
      → c.profile ≢ q
      → entry_of S (some (with_profile S (hosts_or_new S loaded) c p)) c.region q
        ≡ entry_of S loaded c.region q
  unfolding find_profile lookup
  entry-same none c p q ne = find_profile-with_profile_ne S _ c p q ne
  entry-same (some hf) c p q ne = find_profile-with_profile_ne S hf c p q ne

  -- Writing the session of a profile leaves the session of every other profile of the region as it
  -- was read before, if hosts.yml is a file or not there and lies outside its own directory's parents.
  pub read_hosts_creds-write_hosts_creds :
      (c c' : Credentials) (storage q : String) (w w' : World S)
      → write_hosts_creds S c storage w ≡ (ok tt, w')
      → c.profile ≢ q
      → IsFileOrMissing (S.disk.stat w.files S.hosts_file)
      → S.disk.is_within S.hosts_file (S.dir_of S.hosts_file) ≡ false
      → read_hosts_creds S w' c' c.region q ≡ read_hosts_creds S w c' c.region q
  unfolding read_hosts_creds
  read_hosts_creds-write_hosts_creds c c' storage q w w' h ne regular apart =
      let ss = write_hosts_creds-SessionWritten S c storage w w' h in
      let loaded =
        load_hosts_yml-write S A Y apart ss.loaded _ w.files ss.files regular ss.load ss.saved in
      let written =
        apply_tokens-Applied S K c storage _ w.secrets ss.profile ss.secrets ss.applied in
      rw (ss.result, loaded, ss.load)
        (ap (read_profile S ss.secrets c' c.region q)
            (entry-same ss.loaded c (record ss.profile { expiry = c.expiry }) q ne)
          ∙ read_profile-same w.secrets ss.secrets c' c.region q (entry_of S ss.loaded c.region q)
              (λ tf.
                written.others c.region q (token_key tf)
                  (λ uf. profiles_apart c.region c.profile q uf tf ne)))
