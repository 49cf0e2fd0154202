-- ===== src/Cron/Keys.antt =====
-- croncontroller/util.go: the key of a work item, a JobConfig's key and the Unix time of a schedule.
use Prim.Native.Char.{Char, code}
use furiko.Prelude.{
  ◌≡◌, refl, ◌∙◌, ap, sym, arith, Bool-cases, inl, inr, ℤ, false, List, [], ◌∷◌, ◌++◌, Option, none,
  some, String, str_append, if◌then◌else◌, ◌==◌, join, join_after, last?, IsInt64,
}
use text.Mathlib.TextEquality.{Char-path}
use text.Mathlib.TextLemmas.{cons-append, nil-append}
use furiko.Ktime.{Time, unix, of_unix}
use furiko.Decimal.{itoa, atoi, atoi-itoa, itoa-has_dot, has_dot}

unfoldable pub join_job_config_key_name : String → Time → String
unfolding itoa unix
join_job_config_key_name key ts = str_append key (str_append "." (itoa (unix ts)))

unfoldable pub parse_unix : String → Option Time
unfolding atoi of_unix
parse_unix unix_string = elim (atoi unix_string) [ none ↦ none | some s ↦ some (of_unix s) ]

abbrev cons_head : Char → List String → List String
cons_head c [] = String.◌∷◌ c String.[] ∷ []
cons_head c (token ∷ tokens) = String.◌∷◌ c token ∷ tokens

-- strings.Split(key, ".").
unfoldable split_dots : String → List String
split_dots String.[] = String.[] ∷ []
split_dots (String.◌∷◌ c s) =
    let rest = split_dots s in if code c == b'.' then String.[] ∷ rest else cons_head c rest

abbrev init : List String → List String
init [] = []
init (x ∷ []) = []
init (x ∷ y ∷ xs) = x ∷ init (y ∷ xs)

abbrev parse_last : List String → Option String → Option (String × Time)
parse_last tokens none = none
parse_last tokens (some token) = elim (parse_unix token) [
  | none ↦ none
  | some ts ↦ some (join (init tokens) ".", ts)
]

-- `none` where there are fewer than two tokens.
abbrev split_tokens : List String → Option (String × Time)
split_tokens [] = none
split_tokens (token ∷ []) = none
split_tokens (token ∷ token' ∷ tokens) =
    parse_last (token ∷ token' ∷ tokens) (last? (token' ∷ tokens))

unfoldable pub split_job_config_key_name : String → Option (String × Time)
unfolding split_dots parse_unix join
split_job_config_key_name key = split_tokens (split_dots key)

split_dots-plain : (s : String) → has_dot s ≡ false → split_dots s ≡ s ∷ []
unfolding split_dots
split_dots-plain String.[] h = refl
split_dots-plain (String.◌∷◌ c s) h = ground (arith, split_dots-plain s)

-- There is always a first token.
split_dots-cons : (key : String) → (t : String) × (ts : List String) × (split_dots key ≡ t ∷ ts)
unfolding split_dots
split_dots-cons String.[] = (String.[], [], refl)
split_dots-cons (String.◌∷◌ c key) = elim (Bool-cases (code c == b'.')) [
  | inl dot ↦ (String.[], split_dots key, ground arith)
  | inr other ↦ let (t, ts, e) = split_dots-cons key in (String.◌∷◌ c t, ts, ground arith)
]

cons_head-append :
    (c : Char) (tokens xs : List String) (t : String) (ts : List String)
    → tokens ≡ t ∷ ts
    → cons_head c (tokens ++ xs) ≡ cons_head c tokens ++ xs
cons_head-append c tokens xs t ts e = ground arith

split_dots-append :
    (key s : String)
    → has_dot s ≡ false
    → split_dots (str_append key (String.◌∷◌ "." s)) ≡ split_dots key ++ s ∷ []
unfolding split_dots
split_dots-append String.[] s h =
    ap split_dots (nil-append (String.◌∷◌ "." s)) ∙ ap (λ ts. String.[] ∷ ts) (split_dots-plain s h)
split_dots-append (String.◌∷◌ c key) s h =
    let (t, ts, e) = split_dots-cons key in
    let rest = split_dots-append key s h in
    ap split_dots (cons-append c key (String.◌∷◌ "." s)) ∙ elim (Bool-cases (code c == b'.')) [
      | inl dot ↦ ground arith
      | inr other ↦ ground (arith, cons_head-append c (split_dots key) (s ∷ []) t ts e)
    ]

join_after-cons :
    (sep : String) (c : Char) (out : String) (parts : List String)
    → join_after sep (String.◌∷◌ c out) parts ≡ String.◌∷◌ c (join_after sep out parts)
unfolding join_after
join_after-cons sep c out [] = refl
join_after-cons sep c out (part ∷ parts) =
    ap (λ o. join_after sep o parts) (cons-append c out (str_append sep part))
    ∙ join_after-cons sep c (str_append out (str_append sep part)) parts

join-cons_head :
    (c : Char) (t : String) (ts : List String)
    → join (cons_head c (t ∷ ts)) "." ≡ String.◌∷◌ c (join (t ∷ ts) ".")
unfolding join
join-cons_head c t ts = join_after-cons "." c t ts

join-empty_head :
    (t : String) (ts : List String)
    → join (String.[] ∷ t ∷ ts) "." ≡ String.◌∷◌ "." (join (t ∷ ts) ".")
unfolding join join_after
join-empty_head t ts =
    ap (λ o. join_after "." o ts)
      (nil-append (str_append "." t)
        ∙ cons-append "." String.[] t
        ∙ ap (String.◌∷◌ ".") (nil-append t))
    ∙ join_after-cons "." "." t ts

join-one : (t : String) → join (t ∷ []) "." ≡ t
unfolding join join_after
join-one t = refl

join-split_dots : (key : String) → join (split_dots key) "." ≡ key
unfolding split_dots
join-split_dots String.[] = join-one String.[]
join-split_dots (String.◌∷◌ c key) =
    let (t, ts, e) = split_dots-cons key in
    let rest : join (t ∷ ts) "." ≡ key = ap (λ l. join l ".") (sym e) ∙ join-split_dots key in
    elim (Bool-cases (code c == b'.')) [
      | inl dot ↦
          let same : c ≡ "." = Char-path c "." (ground arith) in
          let tokens : split_dots (String.◌∷◌ c key) ≡ String.[] ∷ t ∷ ts = ground arith in
          ap (λ l. join l ".") tokens
          ∙ join-empty_head t ts
          ∙ (λ i. String.◌∷◌ (sym same i) (rest i))
      | inr other ↦
          let tokens : split_dots (String.◌∷◌ c key) ≡ cons_head c (t ∷ ts) = ground arith in
          ap (λ l. join l ".") tokens ∙ join-cons_head c t ts ∙ ap (String.◌∷◌ c) rest
    ]

init-append : (t : String) (ts : List String) (s : String) → init ((t ∷ ts) ++ s ∷ []) ≡ t ∷ ts
init-append t [] s = refl
init-append t (u ∷ ts) s = ap (λ l. t ∷ l) (init-append u ts s)

last-append : (t : String) (ts : List String) (s : String) → last? ((t ∷ ts) ++ s ∷ []) ≡ some s
last-append t [] s = refl
last-append t (u ∷ ts) s = last-append u ts s

split_tokens-append :
    (t : String) (ts : List String) (s : String)
    → split_tokens ((t ∷ ts) ++ s ∷ []) ≡ parse_last ((t ∷ ts) ++ s ∷ []) (some s)
split_tokens-append t [] s = refl
split_tokens-append t (u ∷ ts) s = ap (parse_last ((t ∷ u ∷ ts) ++ s ∷ [])) (last-append u ts s)

parse_last-some :
    (tokens : List String) (s key : String) (ts : Time)
    → parse_unix s ≡ some ts
    → join (init tokens) "." ≡ key
    → parse_last tokens (some s) ≡ some (key, ts)
parse_last-some tokens s key ts parsed joined = ground arith

parse_unix-itoa : (z : ℤ) → IsInt64 z → parse_unix (itoa z) ≡ some (of_unix z)
unfolding parse_unix
parse_unix-itoa z fits = ground (arith, atoi-itoa z fits)

-- The key and the schedule time of a work item are read back from its joined key, the time in
-- whole seconds, for a time that is an int64 of seconds; the key may have points.
pub split-join_job_config_key_name :
    (key : String) (ts : Time)
    → IsInt64 (unix ts)
    → split_job_config_key_name (join_job_config_key_name key ts) ≡ some (key, of_unix (unix ts))
unfolding split_job_config_key_name join_job_config_key_name
split-join_job_config_key_name key ts fits =
    let s = itoa (unix ts) in
    let (t, tokens, e) = split_dots-cons key in
    let dotted : str_append "." s ≡ String.◌∷◌ "." s =
      cons-append "." String.[] s ∙ ap (String.◌∷◌ ".") (nil-append s) in
    let split =
      ap (λ d. split_dots (str_append key d)) dotted
      ∙ split_dots-append key s (itoa-has_dot (unix ts) fits)
      ∙ ap (λ l. l ++ s ∷ []) e in
    let joined = ap (λ l. join l ".") (init-append t tokens s ∙ sym e) ∙ join-split_dots key in
    ap split_tokens split
    ∙ split_tokens-append t tokens s
    ∙ parse_last-some ((t ∷ tokens) ++ s ∷ []) s key (of_unix (unix ts))
        (parse_unix-itoa (unix ts) fits) joined
