-- ===== src/Credential/Laws.antt =====
-- The padding that is taken off, and what the kept token guarantees.
use alibabacloud_erdma_contr.Prelude.{
  ℕ, zero, suc, ◌≤◌, ◌<◌, ◌≡◌, ◌≢◌, ◌⊎◌, refl, ap, ◌∙◌, none, some, List, [], ◌∷◌, ◌++◌, length,
  length-append, arith,
}
use alibabacloud_erdma_contr.Exec.{Res, ok, panic, done, crash}
use alibabacloud_erdma_contr.Credential.{
  Codec, Secret, Clock, StsToken, CredentialModel, last, take_first, pks5_un_padding,
  get_credential, session_of, updated, update_credential, need_update_credential,
}

-- PKCS#5 padding of `n` bytes.
pub padding : ℕ → ℕ → List ℕ
padding zero b = []
padding (suc k) b = b ∷ padding k b

length-padding : (k b : ℕ) → length (padding k b) ≡ k
unfolding padding
length-padding zero b = refl
length-padding (suc k) b = ap suc (length-padding k b)

last-padding : (k b : ℕ) → last (padding (suc k) b) ≡ some b
unfolding padding last
last-padding zero b = refl
last-padding (suc k) b = last-padding k b

last-append : (bs : List ℕ) (c : ℕ) (cs : List ℕ) → last (bs ++ c ∷ cs) ≡ last (c ∷ cs)
unfolding last
last-append [] c cs = refl
last-append (b ∷ []) c cs = refl
last-append (b ∷ d ∷ bs) c cs = last-append (d ∷ bs) c cs

take_first-append : (bs cs : List ℕ) → take_first (length bs) (bs ++ cs) ≡ bs
unfolding take_first
take_first-append [] cs = refl
take_first-append (b ∷ bs) cs = ap (◌∷◌ b) (take_first-append bs cs)

-- For every text and every number n + 1, taking the padding off the text with n + 1 bytes of value
-- n + 1 behind it gives the text.
pub pks5_un_padding-padding :
    (text : List ℕ) (n : ℕ) → pks5_un_padding (text ++ padding (suc n) (suc n)) ≡ ok text
unfolding pks5_un_padding padding
pks5_un_padding-padding text n = ground (
  arith,
  last-append text (suc n) (padding n (suc n)) ∙ last-padding n (suc n),
  length-append text (padding (suc n) (suc n)),
  length-padding (suc n) (suc n),
  take_first-append text (padding (suc n) (suc n)),
)

-- A token that was handed out is the session of the state that is left, and that state is one of
-- two: the secret was read at this call, or the state is unchanged and the token has not expired at
-- a reading of the clock of this call.
pub get_credential-Valid :
    (codec : Codec) (secret : Res Secret) (clock : Clock) (s s' : StsToken) (m : CredentialModel)
    → get_credential codec secret clock s ≡ done m s'
    → (session_of s' ≡ done m s')
      × ((updated codec secret clock.update ≡ ok s')
          ⊎ ((s' ≡ s) × (clock.check ≤ s.expiration ⊎ clock.fallback < s.expiration)))
unfolding get_credential need_update_credential update_credential session_of
get_credential-Valid codec secret clock s s' m h = ground arith

-- No session, and then no time to come.
unfoldable pub IsClean : StsToken → Type 0
IsClean s = s.session ≡ none → s.expiration ≡ 0

-- A secret that is decoded and decrypted without a panic, and a state that without a session has
-- the zero time: `get_credential` does not panic.
get_credential-returns :
    (codec : Codec) (secret : Res Secret) (clock : Clock) (s : StsToken)
    → IsClean s
    → updated codec secret clock.update ≢ panic
    → (s' : StsToken) → get_credential codec secret clock s ≢ crash s'
unfolding get_credential need_update_credential update_credential session_of IsClean
get_credential-returns codec secret clock s c u s' h = ground arith
