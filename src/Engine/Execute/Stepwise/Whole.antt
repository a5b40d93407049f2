-- ===== src/Engine/Execute/Stepwise/Whole.antt =====
-- async_engine.py, `_execute_allowed`: the steps with the guarded function.
use sudo_agent.Base.{String, Option, none, some}
use sudo_agent.Value.{Fields}
use sudo_agent.Engine.Common.{allow, Exn, is_exception}
use sudo_agent.Engine.Services.{Engine, Service, raise, called}
use sudo_agent.Engine.Build.{ExecutionState}
use sudo_agent.Engine.Execute.{call_failed, run_func, execute_allowed}
use sudo_agent.Engine.Execute.Stepwise.{
  Preorder, Moves, EngineMoves, IsStep, await-IsStep, pure-IsStep, raise-IsStep, bind-IsStep,
  attempt-IsStep, if-IsStep,
}
use sudo_agent.Engine.Execute.Stepwise.Parts.{
  log_decision-IsStep, log_outcome-IsStep, charge_budget-IsStep,
}

module _ {W A : Type 0} (o : Preorder W) (self : Engine W) (moves : EngineMoves o self)
    (func : Service W A) (calls : Moves o func) where
  call_failed-IsStep :
      (st : ExecutionState) (reason : String) (code : Option String) (e : Exn)
      → IsStep o (call_failed self func st reason code e)
  call_failed-IsStep st reason code e =
      if-IsStep o (is_exception e) _ (raise e)
        (bind-IsStep o _ _ (log_outcome-IsStep o self moves st reason code "error" (some e))
          λ _. raise-IsStep o e)
        (raise-IsStep o e)

  run_func-IsStep :
      (st : ExecutionState) (reason : String) (code : Option String)
      → IsStep o (run_func self func st reason code)
  run_func-IsStep st reason code =
      bind-IsStep o _ _
        (attempt-IsStep o _ _ (await-IsStep o called func calls)
          (call_failed-IsStep st reason code))
        λ r.
          bind-IsStep o _ _ (log_outcome-IsStep o self moves st reason code "success" none)
            λ _. pure-IsStep o r

  pub execute_allowed-IsStep :
      (st : ExecutionState) (reason : String) (code : Option String)
      (approved entry : Option Fields)
      → IsStep o (execute_allowed self func st reason code approved entry)
  unfolding execute_allowed
  execute_allowed-IsStep st reason code approved entry =
      bind-IsStep o _ _
        (charge_budget-IsStep o self moves st self.budget_manager moves.budget_manager)
        λ _.
          bind-IsStep o _ _
            (log_decision-IsStep o self moves st allow reason code approved _ _ entry)
            λ _. run_func-IsStep st reason code
