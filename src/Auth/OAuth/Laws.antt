-- ===== src/Auth/OAuth/Laws.antt =====
-- Proof keys, the token endpoint and the keys of refreshes.
use Prim.Native.Char.{code}
use ovh_cli.Prelude.{ℕ, suc, String, ◌+◌, ◌*◌, Option, none, some, ◌==◌, ◌≡◌, refl, ◌∙◌, sym, ap}
use ovh_cli.Prelude.{arith, Bool-cases, inl, inr, ◌≤◌, ◌<◌}
use ovh_cli.Prelude.{List, [], ◌∷◌, ◌++◌, ◌≢◌, ◌⊎◌}
use ovh_cli.Errors.{
  to_result, ◌>>=◌, Result, ok, err, panic, bind_inversion, wrap_err, wrap_err-eq-ok,
}
use ovh_cli.Auth.Credentials.{Credentials}
use ovh_cli.Auth.Regions.{Region, validate_host}
use ovh_cli.Auth.OAuth.{
  Crypto, new_pkce, TokenServices, resolve_token_endpoint, endpoint_or_fallback, try_oidc_discovery,
  CodeRequest, granted, pkce_verifier_bytes,
}

-- The length of a text.
unfoldable pub size : String → ℕ
size String.[] = 0
size (String.◌∷◌ c s) = suc (size s)

-- `rand.Read` fills the whole buffer, a SHA-256 digest has 32 bytes, and RawURLEncoding turns n bytes
-- into 4n/3 characters, rounded up.
pub record IsSized (C : Crypto) : Type 0 where
  pub count : C.Bytes → ℕ
  pub read_fills : (n : ℕ) (b : C.Bytes) → C.read n ≡ ok b → count b ≡ n
  pub digest : (b : C.Bytes) → count (C.sha256 b) ≡ 32
  pub encoded : (b : C.Bytes) → 4 * count b ≤ 3 * size (C.encode b)
  pub encoded_below : (b : C.Bytes) → 3 * size (C.encode b) < 4 * count b + 3

module _ (C : Crypto) (L : IsSized C) where
  -- A verifier and its challenge have 43 characters each, as RFC 7636 asks for at least, and the
  -- challenge is the encoded digest of the verifier, if `rand.Read` fills its buffer, a digest has 32
  -- bytes, and three bytes are encoded as four characters.
  pub new_pkce-size :
      (verifier challenge : String)
      → new_pkce C ≡ ok (verifier, challenge)
      → (size verifier ≡ 43)
        × (size challenge ≡ 43)
        × (challenge ≡ C.encode (C.sha256 (C.bytes_of verifier)))
  unfolding new_pkce
  new_pkce-size verifier challenge h = by_read (C.read pkce_verifier_bytes) refl
    where
      by_read :
          (r : Result C.Bytes)
          → C.read pkce_verifier_bytes ≡ r
          → (size verifier ≡ 43)
            × (size challenge ≡ 43)
            × (challenge ≡ C.encode (C.sha256 (C.bytes_of verifier)))
      by_read (ok b) e =
          let v : C.encode b ≡ verifier = ground arith in
          let c : C.encode (C.sha256 (C.bytes_of (C.encode b))) ≡ challenge = ground arith in
          let d = C.sha256 (C.bytes_of (C.encode b)) in
          let small : size (C.encode b) ≡ 43 =
            omega (arith, L.read_fills pkce_verifier_bytes b e, L.encoded b, L.encoded_below b) in
          let small' : size (C.encode d) ≡ 43 =
            omega (arith, L.digest (C.bytes_of (C.encode b)), L.encoded d, L.encoded_below d) in
          (
            ap size (sym v) ∙ small,
            ap size (sym c) ∙ small',
            sym c ∙ ap (λ t. C.encode (C.sha256 (C.bytes_of t))) v,
          )
      by_read (err x) e = ground arith
      by_read (panic x) e = ground arith

module _ (T : TokenServices) where
  -- Whichever way it was found, a token endpoint is an https URL without user information on one of
  -- the region's hosts.
  pub resolve_token_endpoint-valid :
      (region : Region) (url : String)
      → resolve_token_endpoint T region ≡ ok url
      → validate_host T.parse_url url region.validation_host_pattern ≡ ok tt
  unfolding resolve_token_endpoint
  resolve_token_endpoint-valid region url h = elim (Bool-cases (region.oauth2_issuer == "")) [
    | inl e ↦ ground arith
    | inr e ↦ found (try_oidc_discovery T region.oauth2_issuer) (rw e at h)
  ]
    where
      found :
          (o : Option String)
          → endpoint_or_fallback T region o ≡ ok url
          → validate_host T.parse_url url region.validation_host_pattern ≡ ok tt
      found none k =
          let (fallback, _, r) =
            bind_inversion (wrap_err _ _ (to_result (T.join_path region.oauth2_issuer "/token"))) _
              k in
          let (_, valid, same) =
            bind_inversion
              (wrap_err _ _ (validate_host T.parse_url fallback region.validation_host_pattern)) _
              r in
          let e : fallback ≡ url = cc in rw (← e) (wrap_err-eq-ok _ _ _ tt valid)
      found (some discovered) k =
          let (_, valid, same) =
            bind_inversion
              (wrap_err _ _ (validate_host T.parse_url discovered region.validation_host_pattern)) _
              k in
          let e : discovered ≡ url = cc in rw (← e) (wrap_err-eq-ok _ _ _ tt valid)

  -- No code was sent and the exchange failed, or the code and the verifier were sent once, to an
  -- endpoint that passed the check of its host, and the result is what that endpoint answered.
  abbrev pub SendsSafely :
      Region
      → String
      → String
      → String
      → List CodeRequest
      → Result Credentials × List CodeRequest
      → Type 0
  SendsSafely region code verifier redirect_uri sent (r, sent') =
      ((sent' ≡ sent) × ((c : Credentials) → r ≢ ok c))
      ⊎ ((url : String) × (validate_host T.parse_url url region.validation_host_pattern ≡ ok tt)
          × (sent'
              ≡ sent
                ++ record {
                  url = url;
                  redirect_uri = redirect_uri;
                  code = code;
                  verifier = verifier;
                }
                  ∷ [])
          × (r ≡ (
              wrap_err "auth: token exchange: %w" [] (T.exchange url redirect_uri code verifier)
              >>= λ tok. ok (granted region tok))))
