-- ===== src/Dashboard/Page.antt =====
-- The script of dashboard/src/routes/Executions.svelte: submitting code, polling for its result, and
-- showing one execution. The server's answers are arguments; `trim` is the language's, `none` of its text
-- is kept where only blanks are left.
pub mod Poll
use codehive.Types.{failed, timeout, completed, Status}
use codehive.Prelude.{
  zero, suc, true, [], some, str_eq, Option, Bool, ◌∷◌, none, if◌then◌else◌, ℕ, false, String, List,
}
use codehive.Prelude.Exec.{Result, ok, throw}
use codehive.Dashboard.Stores.{Execution}

-- the texts of the languages that the page offers
abbrev pub offered : List String
offered = "python" ∷ "javascript" ∷ "typescript" ∷ "java" ∷ "cpp" ∷ "rust" ∷ "go" ∷ []

pub record Page : Type 0 where
  pub language : String
  pub code : String
  pub stdin : String
  pub submitting : Bool
  pub submit_error : String
  pub selected_id : Option String
  pub detail : Option Execution

unfoldable pub fresh_page : Page
fresh_page = record {
  language = "python";
  code = "";
  stdin = "";
  submitting = false;
  submit_error = "";
  selected_id = none;
  detail = none;
}

-- `exec.status === 'completed' || … 'failed' || … 'timeout'`
abbrev pub is_over : Status → Bool
is_over completed = true
is_over failed = true
is_over timeout = true
is_over _ = false

-- one round of `poll`: a rejected answer ends the loop, and so does an execution that is over
abbrev pub after_round : Result String Execution → ℕ → Option Execution × ℕ → Option Execution × ℕ
after_round (throw e) i rest = (none, suc i)
after_round (ok exec) i rest = if is_over exec.status then (some exec, suc i) else rest

-- The loop of `poll`: the rounds that are left, what `getExecution` answers in each round, and the round it
-- is in. The result is the execution to show, and the number of requests.
unfoldable pub poll_from : ℕ → (ℕ → Result String Execution) → ℕ → Option Execution × ℕ
poll_from zero answer i = (none, i)
poll_from (suc rounds) answer i =
    let rest = poll_from rounds answer (suc i) in after_round (answer i) i rest

unfoldable pub poll : (ℕ → Result String Execution) → Option Execution × ℕ
poll answer = poll_from 60 answer 0

-- `detailExec = exec; selectedId = id`, where the loop found one
abbrev pub show_polled : String → Option Execution → Page → Page
show_polled id none p = p
show_polled id (some exec) p = record p { detail = some exec; selected_id = some id }

-- the body that is sent
pub record Submission : Type 0 where
  pub language : String
  pub code : String
  pub stdin : Option String

abbrev pub submission : Page → Submission
submission p = record {
  language = p.language;
  code = p.code;
  stdin = if str_eq p.stdin "" then none else some p.stdin;
}

-- `if (!code.trim()) return`, and the state before the request
unfoldable pub begin_submit : (String → String) → Page → Option (Page × Submission)
begin_submit trim p =
    if str_eq (trim p.code) ""
    then none
    else some (record p { submitting = true; submit_error = "" }, submission p)

-- behind the server's answer: the identifier to poll for, or the message of the error
unfoldable pub end_submit : Result String String → Page → Page × Option String
end_submit (ok id) p = (record p { code = ""; stdin = ""; submitting = false }, some id)
end_submit (throw e) p = (record p { submit_error = e; submitting = false }, none)

-- `showDetail`, before and behind the answer
unfoldable pub select : String → Page → Page
select id p = record p { selected_id = some id }

unfoldable pub show_detail : Result String Execution → Page → Page
show_detail (ok exec) p = record p { detail = some exec }
show_detail (throw e) p = record p { detail = none }

-- the button `Close`
unfoldable pub close_detail : Page → Page
close_detail p = record p { detail = none }
