-- ===== src/Pkservices/Report.antt =====
-- pkservices/errs.go, and collectServicesErrors of pkservices/manager.go.
pub mod Laws
use g_rpeakec_go.Prelude.{
  ℕ, zero, suc, Bool, true, false, ◌||◌, Option, none, some, List, [], ◌∷◌, ◌++◌, map, ◌==◌,
  if◌then◌else◌,
}
use g_rpeakec_go.Prelude.Text.{Text, codes}
use g_rpeakec_go.Errors.{Err, services, errs_to_list, errs_of_list}
use g_rpeakec_go.Errors.Show.{indent}

pub record ManagerError : Type 0 where
  pub setup_err : Option Err
  pub run_err : Option Err
  pub shutdown_err : Option Err

abbrev pub is_some : Option Err → Bool
is_some none = false
is_some (some e) = true

unfoldable pub has_errors : ManagerError → Bool
has_errors err = is_some err.setup_err || (is_some err.run_err || is_some err.shutdown_err)

-- strings.Split at "\n", strings.Join with "\n", and strings.Repeat.
abbrev pub newline : ℕ
newline = 10

abbrev pub add_to_first : ℕ → List Text → List Text
add_to_first c [] = (c ∷ []) ∷ []
add_to_first c (l ∷ ls) = (c ∷ l) ∷ ls

unfoldable pub split_lines : Text → List Text
split_lines [] = [] ∷ []
split_lines (c ∷ cs) =
    let rest = split_lines cs in if c == newline then [] ∷ rest else add_to_first c rest

unfoldable pub join_lines : List Text → Text
join_lines [] = []
join_lines (l ∷ []) = l
join_lines (l ∷ m ∷ ls) = l ++ newline ∷ join_lines (m ∷ ls)

abbrev pub repeat : ℕ → Text → Text
repeat zero t = []
repeat (suc n) t = t ++ repeat n t

-- indentErr, on the text of the error.
unfoldable pub indent_err : Text → ℕ → Text
unfolding split_lines join_lines
indent_err text indent_count =
    join_lines (map (λ line. repeat indent_count indent ++ line) (split_lines text))

-- `sprintf` is fmt.Sprintf with a format and no values, which is how the indented text is written;
-- `text` is the Error method of the error.
module _ (sprintf : Text → Text) (text : Err → Text) where
  unfoldable pub error_add_stage_err : Text → Text → Option Err → Text
  unfolding indent_err
  error_add_stage_err builder stage none = builder
  error_add_stage_err builder stage (some stage_err) =
      (builder ++ (codes "\n" ++ (indent ++ (codes "---- " ++ (stage ++ codes " ERRORS ----")))))
      ++ sprintf (codes "\n" ++ indent_err (text stage_err) 1)

  unfoldable pub manager_error_text : ManagerError → Text
  unfolding error_add_stage_err
  manager_error_text err =
      error_add_stage_err
        (error_add_stage_err
          (error_add_stage_err (codes "errors occurred during manger run:") (codes "SETUP")
            err.setup_err)
          (codes "RUN") err.run_err)
        (codes "SHUTDOWN") err.shutdown_err

-- The loop of collectServicesErrors over the results.
unfoldable pub collect_loop : List Err → List (Option Err) → List Err
collect_loop error_list [] = error_list
collect_loop error_list (none ∷ results) = collect_loop error_list results
collect_loop error_list (some (services errs) ∷ results) =
    collect_loop (error_list ++ errs_to_list errs) results
collect_loop error_list (some err ∷ results) = collect_loop (error_list ++ err ∷ []) results

unfoldable pub report_list : List Err → Option Err
report_list [] = none
report_list (e ∷ es) = some (services (errs_of_list (e ∷ es)))

unfoldable pub collect_services_errors : List (Option Err) → Option Err
unfolding collect_loop report_list
collect_services_errors results = report_list (collect_loop [] results)
