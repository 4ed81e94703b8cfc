-- ===== src/Driver/Expose.antt =====
-- checkExpose of internal/drivers/utils_linux.go: which local devices the setting
-- exposedLocalERIs lets a node expose.
pub mod Stars
use alibabacloud_erdma_contr.Prelude.{
  ℕ, Bool, true, false, ◌&&◌, ◌||◌, Option, none, some, List, [], ◌∷◌, any, is_empty, Text, codes,
  text_eq, split, leb, ◌==◌, if◌then◌else◌,
}
use alibabacloud_erdma_contr.Exec.{Res, ok, err, panic, errorf}

abbrev in_range : ℕ → ℕ → ℕ → Bool
in_range lo hi c = leb lo c && leb c hi

-- `\w` and `\s`
unfoldable pub is_word : ℕ → Bool
is_word c = in_range b'0' b'9' c || in_range b'A' b'Z' c || in_range b'a' b'z' c || c == b'_'

unfoldable pub is_space : ℕ → Bool
is_space c = c == 32 || in_range 9 10 c || in_range 12 13 c

-- The states of a match of `^(i-(?:\w+|\*))\s+((?:(?:\w+)(?:\/\w+)*))$`. The classes of characters
-- that may follow in a state are disjoint, so that a match never has to go back.
pub data Scan : Type 0 where
  at_start at_dash at_id in_id after_star in_space in_word after_slash rejected : Scan

unfoldable pub scan_step : Scan → ℕ → Scan
unfolding is_word is_space
scan_step at_start c = if c == b'i' then at_dash else rejected
scan_step at_dash c = if c == b'-' then at_id else rejected
scan_step at_id c = if is_word c then in_id else if c == b'*' then after_star else rejected
scan_step in_id c = if is_word c then in_id else if is_space c then in_space else rejected
scan_step after_star c = if is_space c then in_space else rejected
scan_step in_space c = if is_space c then in_space else if is_word c then in_word else rejected
scan_step in_word c = if is_word c then in_word else if c == b'/' then after_slash else rejected
scan_step after_slash c = if is_word c then in_word else rejected
scan_step rejected c = rejected

unfoldable pub scan : Scan → Text → Scan
scan s [] = s
scan s (c ∷ t) = scan (scan_step s c) t

abbrev pub accepts : Scan → Bool
accepts in_word = true
accepts _ = false

-- re.MatchString
unfoldable pub is_expose_info : Text → Bool
unfolding scan scan_step
is_expose_info t = accepts (scan at_start t)

-- strings.SplitN(t, " ", 2): the text before the first blank, and the rest if there is a blank.
unfoldable pub before_blank : Text → Text
before_blank [] = []
before_blank (c ∷ t) = if c == 32 then [] else c ∷ before_blank t

unfoldable pub after_blank : Text → Option Text
after_blank [] = none
after_blank (c ∷ t) = if c == 32 then some t else after_blank t

unfoldable pub trim_left : Text → Text
unfolding is_space
trim_left [] = []
trim_left (c ∷ t) = if is_space c then trim_left t else c ∷ t

-- What an entry lists: the pieces of strings.TrimSpace of the second part. (Its end is no space
-- where the entry has the format.) Without a second part the index panics.
unfoldable pub listed : Text → Res (List Text)
unfolding after_blank trim_left
listed t = elim (after_blank t) [ none ↦ panic | some rest ↦ ok (split b'/' (trim_left rest)) ]

abbrev pub text_among : List Text → Text → Bool
text_among l t = any (λ s. text_eq s t) l

abbrev pub any_instance : Text
any_instance = codes "i-*"

abbrev pub any_device : Text
any_device = codes "erdma_*"

abbrev pub wild_match : Text → List Text → Bool
wild_match device l = any (λ d. text_eq d any_device || text_eq d device) l

-- What the loop does with one valid entry: the answer is known, or the loop goes on with whether
-- the instance was matched and the devices for all other instances.
pub data Turn : Type 0 where
  exposed : Turn
  next : Bool → List Text → Turn

unfoldable pub turn : Text → Text → Text → Bool → List Text → Res Turn
unfolding listed before_blank
turn instance device entry matched others =
    let id = before_blank entry in
    if text_eq instance id
    then elim (listed entry) [
      | ok l ↦
          if text_among l device
          then ok exposed
          else ok (next true (if text_eq id any_instance then l else others))
      | err e ↦ err e
      | panic ↦ panic
    ]
    else if text_eq id any_instance
    then elim (listed entry) [ ok l ↦ ok (next matched l) | err e ↦ err e | panic ↦ panic ]
    else ok (next matched others)

unfoldable pub expose_loop : Text → Text → List Text → Bool → List Text → Res Bool
unfolding turn
expose_loop instance device [] matched others =
    ok (if matched then false else wild_match device others)
expose_loop instance device (entry ∷ entries) matched others = elim (is_expose_info entry) [
  | false ↦ err (errorf "invalid format %s" [])
  | true ↦ elim (turn instance device entry matched others) [
    | ok t ↦ elim t [
      | exposed ↦ ok true
      | next matched' others' ↦ expose_loop instance device entries matched' others'
    ]
    | err e ↦ err e
    | panic ↦ panic
  ]
]

abbrev is_blank_list : List Text → Bool
is_blank_list (entry ∷ []) = is_empty entry
is_blank_list _ = false

unfoldable pub check_expose : Text → List Text → Text → Res Bool
unfolding expose_loop
check_expose instance entries device =
    if is_blank_list entries then ok true else expose_loop instance device entries false []
