-- ===== src/Routes/Chat/Replies.antt =====
-- What is made of a reply of the chat API, one step of its chain of subscripts at a time.
use balance_sheet_analysis.Prelude.{
  ◌≡◌, ◌∙◌, ap, [], ◌∷◌, String, Bool, true, false, refl, Option, none, some, ◌<>◌, if◌then◌else◌,
}
use balance_sheet_analysis.Prelude.Equality.{contains, ◌==◌, nat_eq, string_eq}
use balance_sheet_analysis.Json.{
  Fields, Items, Json, null, bool, int, str, arr, obj, nil, item, lookup,
}
use balance_sheet_analysis.Exec.{
  Result, ok, err, key_error, index_error, uncaught, runtime_error, type_error, attribute_error,
  http_exception,
}
use balance_sheet_analysis.Exec.Pure.{◌>>=◌}
use balance_sheet_analysis.Llm.{
  other_error, Format, Groq, Reply, http_error, response, subscript, first_item, stripped,
  answer_in, or_unexpected, answer_of, send, ask_groq,
}
use balance_sheet_analysis.Routes.Chat.{or_bad_gateway}

-- The text of a reply's body at ["choices"][0]["message"]["content"], without the space around it.
abbrev pub Says : Format → Json → String → Type 0
Says format body answer =
    (fs : Fields) × (choice : Json) × (others : Items) × (ms : Fields) × (cs : Fields)
    × (content : String) × (body ≡ obj fs)
    × (lookup "choices" fs ≡ some (arr (item choice others)))
    × (choice ≡ obj ms)
    × (lookup "message" ms ≡ some (obj cs))
    × (lookup "content" cs ≡ some (str content))
    × (answer ≡ format.strip content)

-- A reply of status 200 whose body says a text.
abbrev pub Answers : Format → Reply → String → Type 0
Answers format (response r) answer =
    (r.status_code ≡ 200) × (body : Json) × (r.body ≡ some body) × Says format body answer
Answers format _ answer = ⊥

-- An answer that is as it should be, 403, 404 or 502, or one of the exceptions that no clause catches:
-- that of a reply of another shape, or one of httpx that is no HTTPError.
abbrev pub IsAnswer : (String → Type 0) → Result String → Type 0
IsAnswer P (ok answer) = P answer
IsAnswer P (err type_error) = Unit
IsAnswer P (err attribute_error) = Unit
IsAnswer P (err (uncaught _)) = Unit
IsAnswer P (err (http_exception status _)) = contains status (403 ∷ 404 ∷ 502 ∷ []) ≡ true
IsAnswer P (err _) = ⊥

module _ (format : Format) (P : String → Type 0) where
  -- What comes of a part of the chain of subscripts.
  abbrev Ends : String → Result String → Type 0
  Ends said r = IsAnswer P (or_bad_gateway (or_unexpected format said r))

  stripped-Ends :
      (said : String) (v : Json)
      → ((s : String) → v ≡ str s → P (format.strip s))
      → Ends said (stripped format v)
  stripped-Ends said (str s) keep = keep s refl
  stripped-Ends said null keep = tt
  stripped-Ends said (bool b) keep = tt
  stripped-Ends said (int z) keep = tt
  stripped-Ends said (arr xs) keep = tt
  stripped-Ends said (obj fs) keep = tt

  subscript-Ends :
      (said key : String) (v : Json) (next : Json → Result String)
      → ((fs : Fields) (w : Json) → v ≡ obj fs → lookup key fs ≡ some w → Ends said (next w))
      → Ends said (subscript format key v >>= next)
  unfolding subscript
  subscript-Ends said key (obj fs) next keep = by_value (lookup key fs) refl
    where
      by_value :
          (o : Option Json)
          → lookup key fs ≡ o
          → Ends said ((elim o [ none ↦ err key_error | some v ↦ ok v ]) >>= next)
      by_value none e = refl
      by_value (some w) e = keep fs w refl e
  subscript-Ends said key null next keep = tt
  subscript-Ends said key (bool b) next keep = tt
  subscript-Ends said key (int z) next keep = tt
  subscript-Ends said key (str s) next keep = tt
  subscript-Ends said key (arr xs) next keep = tt

  first_item-Ends :
      (said : String) (v : Json) (next : Json → Result String)
      → ((s : String) → Ends said (next (str s)))
      → ((w : Json) (others : Items) → v ≡ arr (item w others) → Ends said (next w))
      → Ends said (first_item format v >>= next)
  unfolding first_item
  first_item-Ends said (arr nil) next keep_text keep = refl
  first_item-Ends said (arr (item x xs)) next keep_text keep = keep x xs refl
  first_item-Ends said (obj fs) next keep_text keep = refl
  first_item-Ends said (str s) next keep_text keep = by_text (s == "")
    where
      by_text :
          (b : Bool)
          → Ends said
              ((if b then err index_error else ok (str (format.first_character s))) >>= next)
      by_text true = refl
      by_text false = keep_text (format.first_character s)
  first_item-Ends said null next keep_text keep = tt
  first_item-Ends said (bool b) next keep_text keep = tt
  first_item-Ends said (int z) next keep_text keep = tt

  answer_in-Ends :
      (said : String) (body : Json)
      → ((answer : String) → Says format body answer → P answer)
      → Ends said (answer_in format body)
  unfolding answer_in subscript
  answer_in-Ends said body keep = subscript-Ends said "choices" body _ (λ fs choices e at.
      first_item-Ends said choices _ (λ s. tt)
        (λ choice others f. subscript-Ends said "message" choice _ (λ ms message g at_message.
          subscript-Ends said "content" message _ (λ cs content h at_content.
            stripped-Ends said content (λ s i. keep (format.strip s) (
              fs,
              choice,
              others,
              ms,
              cs,
              s,
              e,
              at ∙ ap (λ v. some v) f,
              g,
              at_message ∙ ap (λ v. some v) h,
              at_content ∙ ap (λ v. some v) i,
              refl,
            ))))))

  answer_of-IsAnswer :
      (reply : Reply)
      → ((answer : String) → Answers format reply answer → P answer)
      → IsAnswer P (or_bad_gateway (answer_of format reply))
  unfolding answer_of
  answer_of-IsAnswer (http_error said) keep = refl
  answer_of-IsAnswer (other_error said) keep = tt
  answer_of-IsAnswer (response r) keep = by_status (r.status_code == 200) refl r.body refl
    where
      by_status :
          (b : Bool)
          → (r.status_code == 200) ≡ b
          → (body : Option Json) → r.body ≡ body
          → IsAnswer P (
              or_bad_gateway (
                if b
                then elim body [
                  | none ↦ err (runtime_error ("Unexpected Groq API response shape: " <> r.text))
                  | some body ↦ or_unexpected format r.text (answer_in format body)
                ]
                else err (
                    runtime_error
                      ("Groq API error (" <> format.decimal r.status_code <> "): " <> r.text))))
      by_status true fine none e = refl
      by_status true fine (some body) e =
          answer_in-Ends r.text body
            (λ answer says. keep answer ((nat_eq.same_iff r.status_code 200).0 fine, body, e, says))
      by_status false fine body e = refl

  pub ask_groq-IsAnswer :
      (groq : Groq) (question context : String)
      → ((answer : String) → Answers format (send format groq question context) answer → P answer)
      → IsAnswer P (or_bad_gateway (ask_groq format groq question context))
  unfolding ask_groq
  ask_groq-IsAnswer groq question context keep =
      by_key (groq.api_key == "") _ (answer_of-IsAnswer (send format groq question context) keep)
    where
      by_key :
          (b : Bool) (reply : Result String)
          → IsAnswer P (or_bad_gateway reply)
          → IsAnswer P (
              or_bad_gateway
                (if b then err (runtime_error "GROQ_API_KEY is not configured") else reply))
      by_key true reply h = refl
      by_key false reply h = h
