-- ===== src/Credential/Token.antt =====
-- The accessors of stsTokenCredential, which the credentials library calls, and getStsCredential.
use alibabacloud_erdma_contr.Prelude.{ℕ, String, Option, none, some, List}
use alibabacloud_erdma_contr.Exec.{Res, Exec}
use alibabacloud_erdma_contr.Exec.Act.{◌>>=◌, pure}
use alibabacloud_erdma_contr.Credential.{Codec, Secret, Clock, StsToken, get_credential}

unfoldable pub get_access_key_id : Codec → Res Secret → Clock → Exec StsToken (List ℕ)
unfolding get_credential
get_access_key_id codec secret clock = do
  cred ← get_credential codec secret clock
  pure cred.access_key_id

unfoldable pub get_access_key_secret : Codec → Res Secret → Clock → Exec StsToken (List ℕ)
unfolding get_credential
get_access_key_secret codec secret clock = do
  cred ← get_credential codec secret clock
  pure cred.access_key_secret

unfoldable pub get_security_token : Codec → Res Secret → Clock → Exec StsToken (List ℕ)
unfolding get_credential
get_security_token codec secret clock = do
  cred ← get_credential codec secret clock
  pure cred.security_token

unfoldable pub get_bearer_token : Option String
get_bearer_token = none

unfoldable pub get_type : Option String
get_type = some "ram_role_sts"

-- getStsCredential: a token that has not been read yet.
unfoldable pub get_sts_credential : StsToken
get_sts_credential = record { session = none; expiration = 0; last_update = 0 }
