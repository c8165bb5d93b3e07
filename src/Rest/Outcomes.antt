-- ===== src/Rest/Outcomes.antt =====
-- What `post_authenticate` of server/src/rest_controller/routes/auth.rs answers, above all to a token
-- that has expired.
use simple_screen_share.Base.{
  ℕ, ◌≡◌, refl, ap, ◌∙◌, Bool, true, false, String, Option, none, some, inl, inr, arith,
}
use simple_screen_share.Base.Result.{Result, ok, err, Result-cases}
use simple_screen_share.Rest.{
  JwtClaims, success, User, ResponseAuthenticate, token_expired, authenticated, PayloadAuthenticate,
  current_token, refresh, issue, post_authenticate,
}

abbrev late : Option (JwtClaims × Bool) → Bool
late none = false
late (some (claims, is_expired)) = is_expired

abbrev is_token_expired : ResponseAuthenticate → Bool
is_token_expired token_expired = true
is_token_expired _ = false

abbrev is_authenticated : ResponseAuthenticate → Bool
is_authenticated (authenticated _ _ _) = true
is_authenticated _ = false

module _ (find_user : String → Result (Option User) String) (register : Result JwtClaims String)
    (encode : JwtClaims → Result String String) (now : ℕ) (payload : PayloadAuthenticate) where
  issue-ok :
      (claims : JwtClaims) (token : String)
      → encode (record claims { iat = now }) ≡ ok token
      → issue find_user register encode now (ok claims)
        ≡ authenticated claims.user_id claims.user_registered token
  unfolding issue
  issue-ok claims token signed = rw (signed, issue)

  refresh-keeps :
      (claims c : JwtClaims)
      → refresh find_user register encode now payload claims false ≡ ok c
      → (c.user_id ≡ claims.user_id) × (c.user_registered ≡ claims.user_registered)
  unfolding refresh
  refresh-keeps claims c e = ground arith

  refresh-refuses :
      (claims : JwtClaims) (response : ResponseAuthenticate)
      → refresh find_user register encode now payload claims false ≡ err response
      → is_authenticated response ≡ false
  unfolding refresh
  refresh-refuses claims response e = ground arith

  issue-refuses :
      (claims : JwtClaims) (error : String)
      → encode (record claims { iat = now }) ≡ err error
      → is_authenticated (issue find_user register encode now (ok claims)) ≡ false
  unfolding issue
  issue-refuses claims error e = rw (e, issue)

  -- Whoever shows a token gets a token for the same user only, with the time of the request.
  pub authenticated_same_user :
      (claims : JwtClaims) (user_id refreshed : String) (registered : Bool)
      → post_authenticate find_user register encode now (success claims) payload
        ≡ authenticated user_id registered refreshed
      → (user_id ≡ claims.user_id)
        × (registered ≡ claims.user_registered)
        × (signed : JwtClaims) × (encode signed ≡ ok refreshed)
        × (signed.user_id ≡ claims.user_id)
        × (signed.user_registered ≡ claims.user_registered)
        × (signed.iat ≡ now)
  unfolding post_authenticate current_token
  authenticated_same_user claims user_id refreshed registered e =
      let result = refresh find_user register encode now payload claims false in
      elim (Result-cases result) [
        | inr (response, f) ↦ ground (arith, refresh-refuses claims response f)
        | inl (c, f) ↦
            let kept = refresh-keeps claims c f in
            let e' : issue find_user register encode now (ok c)
                ≡ authenticated user_id registered refreshed =
              rw f at e in
            elim (Result-cases (encode (record c { iat = now }))) [
              | inr (error, g) ↦ ground (arith, issue-refuses c error g)
              | inl (token, g) ↦
                  let same = issue-ok c token g in
                  let (id, flag, text) : (user_id ≡ c.user_id)
                      × (registered ≡ c.user_registered)
                      × (token ≡ refreshed) =
                    ground arith in
                  (
                    id ∙ kept.0,
                    flag ∙ kept.1,
                    record c { iat = now },
                    g ∙ ap ok text,
                    kept.0,
                    kept.1,
                    refl,
                  )
            ]
      ]
