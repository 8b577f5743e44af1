-- ===== src/Tests/Memory/Ring.antt =====
-- A keyring as a map from users to secrets. A write for the locked user fails.
use ovh_cli.Prelude.{String, Option, none, some, ◌≡◌, arith, ◌==◌, if◌then◌else◌, eq_refl, false}
use ovh_cli.Prelude.Dict.{Dict, lookup, insert, remove, lookup-insert, lookup-remove}
use ovh_cli.Platform.Keyring.{
  Keyring, IsKeyed, KeyringError, not_found, other, Reply, secret, fault,
}

pub record MemoryRing : Type 0 where
  pub entries : Dict String
  pub locked : String

unfoldable pub reply : Option String → Reply
reply none = fault not_found
reply (some v) = secret v

unfoldable pub put : MemoryRing → String → String → Option KeyringError × MemoryRing
put s user v =
    if s.locked == user
    then (some (other "locked"), s)
    else (none, record s { entries = insert user v s.entries })

unfoldable pub drop : MemoryRing → String → Option String → Option KeyringError × MemoryRing
drop s user none = (some not_found, s)
drop s user (some v) = (none, record s { entries = remove user s.entries })

abbrev pub memory_ring : Keyring
memory_ring = record {
  State = MemoryRing;
  get = λ s service user. reply (lookup user s.entries);
  set = λ s service user v. put s user v;
  delete = λ s service user. drop s user (lookup user s.entries);
}

module _ (s : MemoryRing) (user value other_user : String) where
  get-set :
      (put s user value).0 ≡ none → reply (lookup user (put s user value).1.entries) ≡ secret value
  unfolding put reply
  get-set h = ground (arith, lookup-insert user user value s.entries, eq_refl user)

  get-set_ne :
      (user == other_user) ≡ false
      → reply (lookup other_user (put s user value).1.entries) ≡ reply (lookup other_user s.entries)
  unfolding put
  get-set_ne h = ground (arith, lookup-insert user other_user value s.entries)

  get-drop :
      (drop s user (lookup user s.entries)).0 ≡ none
      → reply (lookup user (drop s user (lookup user s.entries)).1.entries) ≡ fault not_found
  unfolding drop reply
  get-drop h = ground (arith, lookup-remove user user s.entries, eq_refl user)

  get-drop_ne :
      (user == other_user) ≡ false
      → reply (lookup other_user (drop s user (lookup user s.entries)).1.entries)
        ≡ reply (lookup other_user s.entries)
  unfolding drop
  get-drop_ne h = ground (arith, lookup-remove user other_user s.entries)

pub memory_ring-IsKeyed : IsKeyed memory_ring
memory_ring-IsKeyed = record {
  get-set = λ s service user value. get-set s user value user;
  get-set_ne = λ s service user value other_user. get-set_ne s user value other_user;
  get-delete = λ s service user. get-drop s user "" user;
  get-delete_ne = λ s service user other_user. get-drop_ne s user "" other_user;
}
