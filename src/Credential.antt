-- ===== src/Credential.antt =====
-- internal/controller/credential.go: which credential the cloud client uses, and the STS token that
-- is read from a secret, decrypted, kept and renewed.
pub mod Token
pub mod Laws
pub mod Examples
use alibabacloud_erdma_contr.Prelude.{
  ℕ, zero, suc, ◌+◌, ◌-◌, String, str_eq, Text, Bool, true, ◌||◌, Option, none, some, List, [], ◌∷◌,
  length, ltb, leb, if◌then◌else◌,
}
use alibabacloud_erdma_contr.Exec.{Res, ok, err, panic, done, fail, crash, Exec, errorf}
use alibabacloud_erdma_contr.Exec.Pure.{◌>>=◌}
use alibabacloud_erdma_contr.Types.{Config, Credentials}
use alibabacloud_erdma_contr.Settings.{reworded}

-- aes.NewCipher and cipher.NewCBCDecrypter: the block size, and CryptBlocks, by the vector.
pub record Cipher : Type 0 where
  pub block_size : ℕ
  pub crypt_blocks : List ℕ → List ℕ → Res (List ℕ)

-- The parsers and the cipher that the code calls; times are seconds since the zero time.
pub record Codec : Type 0 where
  pub base64 : Text → Res (List ℕ)
  pub new_cipher : Text → Res Cipher
  pub parse_time : Text → Res ℕ

pub record EncryptedCredentialInfo : Type 0 where
  pub access_key_id : Text
  pub access_key_secret : Text
  pub security_token : Text
  pub expiration : Text
  pub keyring : Text

pub record CredentialModel : Type 0 where
  pub access_key_id : List ℕ
  pub access_key_secret : List ℕ
  pub security_token : List ℕ
  pub type : String

-- stsTokenCredential without its client and names. A zero time is 0.
pub record StsToken : Type 0 where
  pub session : Option CredentialModel
  pub expiration : ℕ
  pub last_update : ℕ

-- The last element.
unfoldable pub last : List ℕ → Option ℕ
last [] = none
last (b ∷ []) = some b
last (b ∷ c ∷ bs) = last (c ∷ bs)

unfoldable pub take_first : ℕ → List ℕ → List ℕ
take_first zero bs = []
take_first (suc n) [] = []
take_first (suc n) (b ∷ bs) = b ∷ take_first n bs

unfoldable pub drop_first : ℕ → List ℕ → List ℕ
drop_first zero bs = bs
drop_first (suc n) [] = []
drop_first (suc n) (b ∷ bs) = drop_first n bs

-- An empty slice has no last element, and a slice has no negative length.
unfoldable pub pks5_un_padding : List ℕ → Res (List ℕ)
unfolding last take_first
pks5_un_padding bs = elim (last bs) [
  | none ↦ panic
  | some unpadding ↦
      if leb unpadding (length bs) then ok (take_first (length bs - unpadding) bs) else panic
]

-- cdata[:blockSize] panics on shorter data.
unfoldable pub decrypt : Codec → Text → Text → Res (List ℕ)
unfolding pks5_un_padding take_first drop_first
decrypt codec s keyring = do
  cdata ← reworded "failed to decode base64 string, err: %w" (codec.base64 s)
  block ← reworded "failed to new cipher, err:%w" (codec.new_cipher keyring)
  if leb block.block_size (length cdata)
      then (do
        orig ←
            block.crypt_blocks (take_first block.block_size cdata)
              (drop_first block.block_size cdata)
        pks5_un_padding orig)
      else panic

-- The secret as the client returns it: the data under addon.token.config, decoded from JSON.
pub record Secret : Type 0 where
  pub token_config : Option (Res EncryptedCredentialInfo)

unfoldable pub token_info : Res Secret → Res EncryptedCredentialInfo
token_info secret = do
  s ← reworded "failed to get sts secret: %s" secret
  elim s.token_config [
    | none ↦ err (errorf "sts secret does not contain addon.token.config" [])
    | some info ↦ reworded "error unmarshal token config: %w" info
  ]

-- The new state; `now` is the time of the update.
unfoldable pub updated : Codec → Res Secret → ℕ → Res StsToken
unfolding token_info decrypt
updated codec secret now = do
  info ← token_info secret
  ak ← reworded "failed to decode ak, err: %w" (decrypt codec info.access_key_id info.keyring)
  sk ← reworded "failed to decode sk, err: %w" (decrypt codec info.access_key_secret info.keyring)
  token ←
      reworded "failed to decode token, err: %w" (decrypt codec info.security_token info.keyring)
  t ← reworded "failed to parse expiration time, err: %w" (codec.parse_time info.expiration)
  ok (record {
    session = some (record {
      access_key_id = ak;
      access_key_secret = sk;
      security_token = token;
      type = "ram_role_sts";
    });
    expiration = t;
    last_update = now;
  })

-- The state is written after the last error.
unfoldable pub update_credential : Codec → Res Secret → ℕ → Exec StsToken (Unit {0})
unfolding updated
update_credential codec secret now s = elim (updated codec secret now) [
  | ok s' ↦ done tt s'
  | err e ↦ fail e s
  | panic ↦ crash s
]

-- The readings of the clock in a call of GetCredential: two in needUpdateCredential, one in the
-- update, and one after an update that failed.
pub record Clock : Type 0 where
  pub check : ℕ
  pub check_age : ℕ
  pub update : ℕ
  pub fallback : ℕ

-- Five minutes after an update the token is read again.
unfoldable pub need_update_credential : StsToken → Clock → Bool
need_update_credential s clock = elim s.session [
  | none ↦ true
  | some m ↦ ltb s.expiration clock.check || ltb (s.last_update + 300) clock.check_age
]

-- The credential that is handed out, of a session that is there.
unfoldable pub session_of : Exec StsToken CredentialModel
session_of s = elim s.session [
  | none ↦ crash s
  | some m ↦
      done
        (record {
          access_key_id = m.access_key_id;
          access_key_secret = m.access_key_secret;
          security_token = m.security_token;
          type = "ram_role_sts";
        })
        s
]

unfoldable pub get_credential : Codec → Res Secret → Clock → Exec StsToken CredentialModel
unfolding need_update_credential update_credential session_of
get_credential codec secret clock s =
    if need_update_credential s clock
    then elim (update_credential codec secret clock.update s) [
      | done u s' ↦ session_of s'
      | crash s' ↦ crash s'
      | fail e s' ↦ if ltb clock.fallback s'.expiration then session_of s' else fail e s'
    ]
    else session_of s

-- The kinds of credentials that getCredential chooses between; the constructors stand for the calls
-- of the credentials library, with the STS endpoint where it is passed.
pub data Provider : Type 0 where
  access_key : String → String → String → Provider
  oidc_role_arn : String → Provider
  ecs_ram_role : Provider
  ram_role_sts : String → String → Provider

-- `endpoint` is the outcome of GetEndpointRules for the region.
unfoldable pub get_credential_provider : (String → Res String) → Config → Credentials → Res Provider
get_credential_provider endpoint config c = do
  sts ← endpoint config.region
  if str_eq c.type "" || str_eq c.type "access_key"
      then ok (access_key c.access_key_id c.access_key_secret sts)
      else if str_eq c.type "oidc_role_arn"
      then ok (oidc_role_arn sts)
      else if str_eq c.type "ecs_ram_role"
      then ok ecs_ram_role
      else if str_eq c.type "ram_role_sts"
      then ok (ram_role_sts c.sts_secret_ns c.sts_secret_name)
      else err (errorf "unsupported credential type: %s" (c.type ∷ []))
