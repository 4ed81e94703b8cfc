-- ===== src/Metadata/Examples.antt =====
-- A metadata server that has dropped the token that the client keeps.
use alibabacloud_erdma_contr.Prelude.{
  ℕ, suc, ◌+◌, ◌≡◌, ◌≢◌, refl, inl, inr, false, none, some, codes, text_eq, trim, trim_left,
  trim_right, split, if◌then◌else◌,
}
use alibabacloud_erdma_contr.Exec.{remote}
use alibabacloud_erdma_contr.Metadata.{
  response, Http, got, Meta, verdict, kept_or, with_retry_steps, with_retry, keep_token, get_token,
  ask, ask_with, round, token_refused, get_with_token_loop, rounds, get_with_token,
  get_str_from_metadata, trimmed,
}
use alibabacloud_erdma_contr.Metadata.Laws.{get_with_token_ends}

-- A request with the old token is refused, and a request for a token gives the new one.
abbrev server : Http ℕ
server = record {
  send = λ method url header w. (
    if text_eq header.1 (codes "old")
        then response 401 (inl (remote "refused"))
        else if text_eq header.1 (codes "new")
        then response 200 (inr (codes "10.0.0.5/\nrest"))
        else response 200 (inr (codes "new")),
    suc w,
  );
}

abbrev stale : Meta ℕ
stale = record { token = some (codes "old"); world = 0 }

abbrev renewed : Meta ℕ
renewed = record { token = some (codes "new"); world = 3 }

address_got :
    get_with_token server (codes "ip") stale ≡ some (got (codes "10.0.0.5/\nrest"), renewed)
unfolding get_with_token get_with_token_loop round token_refused get_token ask ask_with keep_token
    with_retry with_retry_steps verdict kept_or text_eq
address_got = refl

address_read :
    get_str_from_metadata server (codes "ip") stale ≡ some (got (codes "10.0.0.5"), renewed)
unfolding get_str_from_metadata trimmed trim trim_left trim_right split
address_read = rw (address_got, get_str_from_metadata) refl

get_with_token_ends_example :
    (get_with_token_loop server (rounds + 3) false (codes "ip") stale
      ≡ get_with_token server (codes "ip") stale)
    × (get_with_token server (codes "ip") stale ≢ none)
get_with_token_ends_example = get_with_token_ends server 3 (codes "ip") stale
