-- ===== src/Auth/Jwt.antt =====
-- libs/jwt/src/jwt.service.ts. Signing and the check of a signature are the library's; the payload, its
-- type and the test of the type are this code. Times are seconds.
use kodi_backend_template_a.Base.{
  ℕ, String, Bool, Option, none, some, List, truthy, Run, ret, throw, ◌≡◌, refl,
}
use kodi_backend_template_a.Rbac.Roles.{role_to_number}

pub data TokenType : Type 0 where
  access refresh : TokenType

pub record CityAssignment : Type 0 where
  pub city_id : String
  pub role : ℕ
  pub can_manage_admins : Bool

-- The options of a token; an absent list is not written to it.
pub record TokenOptions : Type 0 where
  pub is_guest : Bool
  pub device_id : Option String
  pub city_id : Option String
  pub city_ids : Option (List String)
  pub selected_city_id : Option String
  pub city_assignments : Option (List CityAssignment)
  pub permissions : Option (List String)

pub record TokenPayload : Type 0 where
  pub sub : String
  pub email : Option String
  pub role : ℕ
  pub type : TokenType
  pub options : TokenOptions

pub record TokenPair : Type 0 where
  pub access_token : String
  pub refresh_token : String
  pub expires_in : ℕ

-- The signing library: `sign secret lifetime now`, and `check secret now`, which fails on a bad
-- signature or after the lifetime.
pub record Signer : Type 0 where
  pub sign : String → ℕ → ℕ → TokenPayload → String
  pub check : String → ℕ → String → Option TokenPayload

pub record JwtConfig : Type 0 where
  pub access_secret : String
  pub refresh_secret : String
  pub access_expiry : ℕ
  pub refresh_expiry : ℕ

-- An empty text is left out of the payload.
pub payload_of : String → Option String → String → TokenType → TokenOptions → TokenPayload
payload_of user email role type options = record {
  sub = user;
  email = truthy email;
  role = role_to_number role;
  type = type;
  options = record options {
    device_id = truthy options.device_id;
    city_id = truthy options.city_id;
    selected_city_id = truthy options.selected_city_id;
  };
}

module _ (signer : Signer) (config : JwtConfig) where
  pub generate_access_token : ℕ → String → Option String → String → TokenOptions → String
  generate_access_token now user email role options =
      signer.sign config.access_secret config.access_expiry now
        (payload_of user email role access options)

  pub generate_refresh_token : ℕ → String → Option String → String → TokenOptions → String
  generate_refresh_token now user email role options =
      signer.sign config.refresh_secret config.refresh_expiry now
        (payload_of user email role refresh options)

  unfoldable pub generate_token_pair :
      ℕ → String → Option String → String → TokenOptions → TokenPair
  unfolding generate_access_token generate_refresh_token
  generate_token_pair now user email role options = record {
    access_token = generate_access_token now user email role options;
    refresh_token = generate_refresh_token now user email role options;
    expires_in = config.access_expiry;
  }

  expect : TokenType → Option TokenPayload → Run TokenPayload
  expect type none = throw
  expect type (some p) = elim type [
    | access ↦ elim p.type [ access ↦ ret p | refresh ↦ throw ]
    | refresh ↦ elim p.type [ access ↦ throw | refresh ↦ ret p ]
  ]

  pub verify_access_token : ℕ → String → Run TokenPayload
  unfolding expect
  verify_access_token now token = expect access (signer.check config.access_secret now token)

  unfoldable pub verify_refresh_token : ℕ → String → Run TokenPayload
  unfolding expect
  verify_refresh_token now token = expect refresh (signer.check config.refresh_secret now token)

  -- When the signing library returns what was signed, a refresh token is read back with its payload,
  -- and an access token is refused as a refresh token even under the same secret.
  pub verify_refresh_token-generate_token_pair :
      (now later : ℕ) (user role : String) (email : Option String) (options : TokenOptions)
      → signer.check config.refresh_secret later (
          signer.sign config.refresh_secret config.refresh_expiry now
            (payload_of user email role refresh options))
        ≡ some (payload_of user email role refresh options)
      → signer.check config.refresh_secret later (
          signer.sign config.access_secret config.access_expiry now
            (payload_of user email role access options))
        ≡ some (payload_of user email role access options)
      → (verify_refresh_token later (generate_token_pair now user email role options).refresh_token
          ≡ ret (payload_of user email role refresh options))
        × (verify_refresh_token later (generate_token_pair now user email role options).access_token
            ≡ throw)
  unfolding verify_refresh_token generate_token_pair expect payload_of generate_access_token
      generate_refresh_token
  verify_refresh_token-generate_token_pair now later user role email options own other =
      (rw own refl, rw other refl)
