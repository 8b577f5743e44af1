-- ===== src/Auth/Keyring/Laws.antt =====
-- Placeholders and keyring entries: what is written under a tuple is read back under it, and
-- different keys have different entries.
use ovh_cli.Prelude.{String, true, false, ◌==◌, ◌≡◌, ◌≢◌, arith}
use ovh_cli.Prelude.{has_prefix-append, trim_prefix, trim_prefix-append, ne-test}
use ovh_cli.Errors.{ok}
use ovh_cli.Platform.Keyring.{Keyring, IsKeyed}
use ovh_cli.Auth.Keyring.{
  keyring_service, placeholder_prefix, keyring_user, is_placeholder, make_placeholder, keyring_set,
  keyring_get, keyring_delete,
}
use text.Mathlib.TextLemmas.{append_cancel_left}

pub is_placeholder-make_placeholder :
    (region profile key : String) → is_placeholder (make_placeholder region profile key) ≡ true
unfolding is_placeholder make_placeholder
is_placeholder-make_placeholder region profile key = has_prefix-append placeholder_prefix _

-- The account is read directly out of the placeholder.
pub trim_prefix-make_placeholder :
    (region profile key : String)
    → trim_prefix (make_placeholder region profile key) placeholder_prefix
      ≡ keyring_user region profile key
unfolding make_placeholder
trim_prefix-make_placeholder region profile key = trim_prefix-append placeholder_prefix _

keyring_user_inj :
    (region profile k j : String)
    → keyring_user region profile k ≡ keyring_user region profile j
    → k ≡ j
unfolding keyring_user
keyring_user_inj region profile k j h =
    append_cancel_left ":" _ _ (
      append_cancel_left profile _ _ (append_cancel_left ":" _ _ (append_cancel_left region _ _ h)))

pub keyring_user-ne :
    (region profile k j : String)
    → k ≢ j
    → (keyring_user region profile k == keyring_user region profile j) ≡ false
keyring_user-ne region profile k j h = ne-test _ _ (λ e. h (keyring_user_inj region profile k j e))

module _ (K : Keyring) (L : IsKeyed K) (s : K.State) (region profile key : String) where
  pub keyring_get-set :
      (value : String) (s' : K.State)
      → keyring_set K region profile key value s ≡ (ok tt, s')
      → keyring_get K s' region profile key ≡ ok value
  unfolding keyring_set keyring_get
  keyring_get-set value s' h =
      ground (arith, L.get-set s keyring_service (keyring_user region profile key) value)

  pub keyring_get-set_ne :
      (value k : String)
      → key ≢ k
      → keyring_get K (keyring_set K region profile key value s).1 region profile k
        ≡ keyring_get K s region profile k
  unfolding keyring_set keyring_get
  keyring_get-set_ne value k ne = ground (
    arith,
    L.get-set_ne s keyring_service (keyring_user region profile key) value
        (keyring_user region profile k),
    keyring_user-ne region profile key k ne,
  )

  pub keyring_get-delete_ne :
      (k : String)
      → key ≢ k
      → keyring_get K (keyring_delete K region profile key s).1 region profile k
        ≡ keyring_get K s region profile k
  unfolding keyring_delete keyring_get
  keyring_get-delete_ne k ne = ground (
    arith,
    L.get-delete_ne s keyring_service (keyring_user region profile key)
        (keyring_user region profile k),
    keyring_user-ne region profile key k ne,
  )
