-- ===== src/Cli/Faults.antt =====
-- internal/cli/cmd_fault.go: the rule that `fault create` sends, what the commands make of the
-- answers, and the row that `fault list` prints. The flags are what the package flag has parsed.
use localcloud.Base.{
  ltb, eqb, if◌then◌else◌, length, take, length-append, length-take-le, ℤ, pos, ltb_ℤ, Bytes, codes,
  ℕ, ◌≤◌, String, Bool, true, ◌||◌, Option, none, some, List, [], ◌∷◌, ◌++◌, arith, ◌==◌,
}
use localcloud.Timeline.{Object, Value, Members, map_get, map_set}

pub record CreateFlags : Type 0 where
  pub name : String
  pub kind : String
  pub scope : String
  pub service : String
  pub method : String
  pub path_prefix : String
  pub status_code : ℤ
  pub delay_ms : ℤ
  pub reason : String
  pub max_hits : ℤ
  pub expires_after : String

-- `if *s != "" { m[k] = *s }` and `if *n > 0 { m[k] = *n }`.
pub set_text : String → String → Object → Object
set_text k s m = if s == "" then m else map_set k (Value.str s) m

pub set_number : String → ℤ → Object → Object
set_number k n m = if ltb_ℤ (pos 0) n then map_set k (Value.int n) m else m

abbrev pub members : Object → Members
members [] = Members.end
members ((k, v) ∷ m) = Members.member k v (members m)

-- The body of `fault create`, `none` where the command refuses its flags.
pub create_body : CreateFlags → Option Object
unfolding set_text set_number
create_body f =
    if f.name == "" || f.kind == ""
    then none
    else some (
        ("name", Value.str f.name)
        ∷ ("kind", Value.str f.kind)
        ∷ ("scope", Value.str f.scope)
        ∷ ("enabled", Value.bool true)
        ∷ (
          "match",
          Value.obj (
              members (
                set_text "pathPrefix" f.path_prefix
                  (set_text "method" f.method (set_text "service" f.service [])))),
        )
        ∷ (
          "action",
          Value.obj (
              members (
                set_text "reason" f.reason
                  (set_number "delayMs" f.delay_ms (set_number "statusCode" f.status_code [])))),
        )
        ∷ (
          "safety",
          Value.obj (
              members
                (set_text "expiresAfter" f.expires_after (set_number "maxHits" f.max_hits []))),
        )
        ∷ [])

-- What a request of a command comes to: it cannot be built, the agent cannot be reached, or it
-- answers with a status and a body.
pub data Answer : Type 0 where
  unbuilt unreachable : Answer
  answered : ℕ → Object → Answer

-- The exit code where the one status is wanted.
pub exit_code : ℕ → Answer → ℕ
exit_code wanted unbuilt = 1
exit_code wanted unreachable = 1
exit_code wanted (answered status body) = if eqb status wanted then 0 else 1

pub fault_create : CreateFlags → (Object → Answer) → ℕ
unfolding create_body exit_code
fault_create f post = elim (create_body f) [ none ↦ 1 | some body ↦ exit_code 201 (post body) ]

-- `fault enable` and `fault disable`; the first argument is the rule's id.
pub fault_set_enabled : List String → Bool → (String → Bool → Answer) → ℕ
unfolding exit_code
fault_set_enabled [] enabled patch = 1
fault_set_enabled (id ∷ args) enabled patch = exit_code 200 (patch id enabled)

pub fault_delete : List String → (String → Answer) → ℕ
unfolding exit_code
fault_delete [] delete = 1
fault_delete (id ∷ args) delete = exit_code 200 (delete id)

-- `s, _ := m[k].(string)`.
abbrev text_of : Option Value → Bytes
text_of none = []
text_of (some (Value.str s)) = codes s
text_of (some (Value.text b)) = b
text_of (some _) = []

abbrev part : Bytes → (Bytes → Bytes) → List Bytes → List Bytes
part [] f rest = rest
part (c ∷ s) f rest = f (c ∷ s) ∷ rest

-- strings.Join(parts, " ").
pub joined : List Bytes → Bytes
joined [] = []
joined (s ∷ []) = s
joined (s ∷ t ∷ ss) = s ++ (codes " " ++ joined (t ∷ ss))

pub match_parts : Object → List Bytes
match_parts m =
    part (text_of (map_get "service" m)) (λ s. codes "svc=" ++ s)
      (part (text_of (map_get "method" m)) (λ s. s)
        (part (text_of (map_get "pathPrefix" m)) (λ s. s ++ codes "*")
          (part (text_of (map_get "path" m)) (λ s. s) [])))

pub shorten : Bytes → Bytes
shorten s = if ltb 25 (length s) then take 22 s ++ codes "..." else s

-- formatMatch; `none` is a nil map.
pub format_parts : List Bytes → Bytes
unfolding joined shorten
format_parts [] = codes "*"
format_parts (p ∷ ps) = shorten (joined (p ∷ ps))

pub format_match : Option Object → Bytes
unfolding match_parts format_parts
format_match none = codes "*"
format_match (some m) = format_parts (match_parts m)

shorten-le : (s : Bytes) → length (shorten s) ≤ 25
unfolding shorten
shorten-le s = ground (arith, length-append (take 22 s) (codes "..."), length-take-le 22 s)

format_parts-le : (ps : List Bytes) → length (format_parts ps) ≤ 25
unfolding format_parts
format_parts-le [] = omega arith
format_parts-le (p ∷ ps) = shorten-le (joined (p ∷ ps))

-- The column of a rule's match is at most 25 bytes wide.
pub format_match-le : (m : Option Object) → length (format_match m) ≤ 25
unfolding format_match
format_match-le none = omega arith
format_match-le (some m) = format_parts-le (match_parts m)
