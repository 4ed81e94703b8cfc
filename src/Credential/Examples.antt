-- ===== src/Credential/Examples.antt =====
-- A secret that is read and a secret that cannot be read, for the theorems on
-- internal/controller/credential.go.
use alibabacloud_erdma_contr.Prelude.{
  suc, ◌≤◌, ◌<◌, ◌≡◌, ◌⊎◌, refl, none, some, [], ◌∷◌, ◌++◌, codes,
}
use alibabacloud_erdma_contr.Exec.{Res, ok, err, remote, done}
use alibabacloud_erdma_contr.Credential.{
  Codec, Clock, CredentialModel, Secret, StsToken, decrypt, get_credential, last,
  need_update_credential, pks5_un_padding, session_of, take_first, drop_first, token_info,
  update_credential, updated,
}
use alibabacloud_erdma_contr.Credential.Laws.{
  padding, pks5_un_padding-padding, get_credential-Valid, IsClean,
}

-- A cipher that leaves its data as they are, with blocks of two bytes.
abbrev plain : Codec
plain = record {
  base64 = λ t. ok t;
  new_cipher = λ k. ok (record { block_size = 2; crypt_blocks = λ iv data'. ok data' });
  parse_time = λ t. ok 1000;
}

abbrev token_secret : Res Secret
token_secret = ok (record {
  token_config = some (
      ok (record {
        access_key_id = 9 ∷ 9 ∷ 65 ∷ 1 ∷ [];
        access_key_secret = 9 ∷ 9 ∷ 66 ∷ 1 ∷ [];
        security_token = 9 ∷ 9 ∷ 67 ∷ 1 ∷ [];
        expiration = codes "2026-01-02T03:04:05Z";
        keyring = codes "keyring";
      }));
})

abbrev model_1 : CredentialModel
model_1 = record {
  access_key_id = 65 ∷ [];
  access_key_secret = 66 ∷ [];
  security_token = 67 ∷ [];
  type = "ram_role_sts";
}

abbrev fresh_token : StsToken
fresh_token = record { session = none; expiration = 0; last_update = 0 }

abbrev kept_token : StsToken
kept_token = record { session = some model_1; expiration = 1000; last_update = 100 }

abbrev clock_100 : Clock
clock_100 = record { check = 100; check_age = 100; update = 100; fallback = 100 }

abbrev clock_900 : Clock
clock_900 = record { check = 900; check_age = 900; update = 900; fallback = 901 }

secret_read : updated plain token_secret 100 ≡ ok kept_token
unfolding updated token_info decrypt take_first drop_first pks5_un_padding last
secret_read = refl

abbrev no_secret : Res Secret
no_secret = err (remote "timeout")

-- The secret cannot be read, and the token has not expired.
token_kept : get_credential plain no_secret clock_900 kept_token ≡ done model_1 kept_token
unfolding get_credential need_update_credential update_credential updated token_info session_of
token_kept = refl

get_credential-Valid_example :
    (session_of kept_token ≡ done model_1 kept_token)
    × ((updated plain no_secret 900 ≡ ok kept_token)
        ⊎ ((◌≡◌ {A = StsToken} kept_token kept_token) × ((900 ≤ 1000) ⊎ (901 < 1000))))
get_credential-Valid_example =
    get_credential-Valid plain no_secret clock_900 kept_token kept_token model_1 token_kept

no_session_no_time : IsClean fresh_token
unfolding IsClean
no_session_no_time = λ e. refl

pks5_un_padding-padding_example :
    pks5_un_padding ((65 ∷ 66 ∷ []) ++ padding (suc 2) (suc 2)) ≡ ok (65 ∷ 66 ∷ [])
pks5_un_padding-padding_example = pks5_un_padding-padding (65 ∷ 66 ∷ []) 2
