-- ===== src/Metadata.antt =====
-- internal/utils/metadata.go: the metadata server of the instance, with a token that is kept, a
-- backoff on errors that may pass, and one more round where the token is refused.
pub mod Laws
pub mod Examples
use alibabacloud_erdma_contr.Prelude.{
  ℕ, zero, suc, ◌⊎◌, inl, inr, String, Bool, true, false, not, ◌&&◌, ◌||◌, Option, none, some, List,
  [], ◌∷◌, Text, codes, text_eq, split, trim, ◌==◌, leb, if◌then◌else◌,
}
use alibabacloud_erdma_contr.Exec.{Error}

abbrev pub token_url : Text
token_url = codes "http://100.100.100.200/latest/api/token"

-- What comes back of a request: no request could be made, no response came, or a response with its
-- code and its body, where that can be read.
pub data Reply : Type 0 where
  no_request : Error → Reply
  no_response : Error → Reply
  response : ℕ → Error ⊎ Text → Reply

-- http.Client.Do: the method, the URL and the one header, with its value.
pub record Http (W : Type 0) : Type 0 where
  pub send : String → Text → String × Text → W → Reply × W

-- `typed url code`: an `Error` of the file, with no code where there was no response.
pub data MetaError : Type 0 where
  typed : Text → Option ℕ → MetaError
  other : Error → MetaError
  timed_out : MetaError

pub data Answer : Type 0 where
  got : Text → Answer
  failed : MetaError → Answer

-- tokenCache, and the world. A token that has expired is none; it does not expire within a call.
pub record Meta (W : Type 0) : Type 0 where
  pub token : Option Text
  pub world : W

-- What the condition of the backoff says: again, with the error it keeps; stop with an error that it
-- keeps; stop with one that it does not keep; or stop with the body.
pub data Verdict : Type 0 where
  again : MetaError → Verdict
  refused : MetaError → Verdict
  unread : Error → Verdict
  fine : Text → Verdict

abbrev too_many_requests : ℕ
too_many_requests = 429

abbrev internal_server_error : ℕ
internal_server_error = 500

abbrev bad_request : ℕ
bad_request = 400

abbrev pub unauthorized : ℕ
unauthorized = 401

abbrev method_of : Text → String
method_of url = if text_eq url token_url then "PUT" else "GET"

unfoldable pub verdict : Text → Reply → Verdict
verdict url (no_request e) = again (typed url none)
verdict url (no_response e) = again (typed url none)
verdict url (response code body) =
    if (code == too_many_requests) || leb internal_server_error code
    then again (typed url (some code))
    else if leb bad_request code
    then refused (typed url (some code))
    else elim body [ inl e ↦ unread e | inr b ↦ fine b ]

-- The error that withRetry returns: the one it keeps, which may be of an earlier step.
unfoldable pub kept_or : Option MetaError → MetaError → MetaError
kept_or none e = e
kept_or (some k) e = k

abbrev pub backoff_steps : ℕ
backoff_steps = 4

abbrev pub rounds : ℕ
rounds = 2

module _ {W : Type 0} (http : Http W) where
  -- The steps of the backoff, with innerErr.
  unfoldable pub with_retry_steps : ℕ → Text → String × Text → Option MetaError → W → Answer × W
  unfolding verdict kept_or
  with_retry_steps zero url header inner w = (failed (kept_or inner timed_out), w)
  with_retry_steps (suc steps) url header inner w =
      let (reply, w') = http.send (method_of url) url header w in
      elim (verdict url reply) [
        | again e ↦ with_retry_steps steps url header (some e) w'
        | refused e ↦ (failed e, w')
        | unread e ↦ (failed (kept_or inner (other e)), w')
        | fine body ↦ (got body, w')
      ]

  unfoldable pub with_retry : Text → String × Text → W → Answer × W
  unfolding with_retry_steps
  with_retry url header = with_retry_steps backoff_steps url header none

  -- tokenTimeout, as the header has it.
  abbrev token_header : String × Text
  token_header = ("X-aliyun-ecs-metadata-token-ttl-seconds", codes "21600")

  unfoldable pub keep_token : Answer × W → Answer × Meta W
  keep_token (got t, w) = (got t, record { token = some t; world = w })
  keep_token (failed e, w) = (failed e, record { token = none; world = w })

  -- The token of the cache, or a new one, which is kept.
  unfoldable pub get_token : Meta W → Answer × Meta W
  unfolding with_retry keep_token
  get_token m = elim m.token [
    | some t ↦ (got t, m)
    | none ↦ keep_token (with_retry token_url token_header m.world)
  ]

  unfoldable pub ask : Text → Text → Meta W → Answer × Meta W
  unfolding with_retry
  ask url token m =
      let (answer, w) = with_retry url ("X-aliyun-ecs-metadata-token", token) m.world in
      (answer, record { token = m.token; world = w })

  unfoldable pub ask_with : Text → Answer × Meta W → Answer × Meta W
  unfolding ask
  ask_with url (got t, m) = ask url t m
  ask_with url (failed e, m) = (failed e, m)

  -- One round from the label `retry` on.
  unfoldable pub round : Text → Meta W → Answer × Meta W
  unfolding get_token ask_with
  round url m = ask_with url (get_token m)

  -- The round failed after a token was got, with an error of the file and code 401.
  unfoldable pub token_refused : Text → Meta W → Bool
  unfolding get_token ask
  token_refused url m =
      let (answer, m') = get_token m in
      elim answer [
        | failed e ↦ false
        | got t ↦ elim ((ask url t m').0) [
          | got b ↦ false
          | failed e ↦ elim e [
            | typed u code ↦ elim code [ none ↦ false | some c ↦ c == unauthorized ]
            | other x ↦ false
            | timed_out ↦ false
          ]
        ]
      ]

  -- The loop of getWithToken, on fuel: none where the fuel is gone. A refused token is dropped, and
  -- asked for again once.
  unfoldable pub get_with_token_loop : ℕ → Bool → Text → Meta W → Option (Answer × Meta W)
  unfolding round token_refused
  get_with_token_loop zero skip_retry url m = none
  get_with_token_loop (suc fuel) skip_retry url m =
      let (answer, m') = round url m in
      let retried = get_with_token_loop fuel true url (record { token = none; world = m'.world }) in
      if token_refused url m && not skip_retry then retried else some (answer, m')

  unfoldable pub get_with_token : Text → Meta W → Option (Answer × Meta W)
  unfolding get_with_token_loop
  get_with_token url m = get_with_token_loop rounds false url m

abbrev first_line : List Text → Text
first_line [] = []
first_line (l ∷ ls) = l

-- The first line of the body without slashes around it.
unfoldable pub trimmed : Text → Text
trimmed body = trim b'/' (first_line (split 10 body))

unfoldable pub get_str_from_metadata :
    {W : Type 0} → Http W → Text → Meta W → Option (Answer × Meta W)
unfolding get_with_token trimmed
get_str_from_metadata http url m = elim (get_with_token http url m) [
  | none ↦ none
  | some r ↦ elim r.0 [
    | failed e ↦ some (failed e, r.1)
    | got body ↦ some (got (trimmed body), r.1)
  ]
]
