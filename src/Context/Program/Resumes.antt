-- ===== src/Context/Program/Resumes.antt =====
-- A workflow that stopped part way, run again from its start (src/context.rs, src/engine.rs).
use durust.Base.{ℤ, String, ◌≡◌, refl, ap, ◌∙◌, string_eq, int_eq, pair_eq}
use durust.Platform.{Platform}
use durust.Error.{Result, ok}
use durust.Memory.{Inner}
use durust.Memory.Invariant.{IsValid}
use durust.Memory.Calls.Checkpoints.{Runs, Runs-IsValid, Runs-trans}
use durust.Context.{StepEnv}
use durust.Context.Program.{
  Call, Program, perform, calls, following, and_then, execute, Progress, stopped, went,
}
use durust.Context.Program.Performs.{perform-Runs, perform-replays}

module _ {p : Platform} {id : String} where
  pub Progress-Runs :
      (seq : ℤ) (w : Program p id) (g : Inner p) (seq' : ℤ) (w' : Program p id) (g' : Inner p)
      → Progress seq w g seq' w' g'
      → Runs g g'
  Progress-Runs _ _ _ _ _ _ (stopped seq w g) = Runs.no_call
  Progress-Runs _ _ _ _ _ _ (went rt seq c k v g between seq' w' g' gives others rest) =
      Runs-trans g (perform rt seq c g).1 g' (perform-Runs rt seq c g) (
        Runs-trans (perform rt seq c g).1 between g' others
          (Progress-Runs (following seq) (k v) between seq' w' g' rest))

  replayed :
      (rt : StepEnv p) (seq : ℤ) (c : Call p id) (k : p.Value → Program p id) (v : p.Value)
      (h : Inner p)
      → perform rt seq c h ≡ (ok v, h)
      → execute rt seq (calls c k) h ≡ execute rt (following seq) (k v) h
  unfolding execute
  replayed rt seq c k v h e =
      ap
        (λ (r : Result p p.Value × Inner p).
          and_then r (λ u g'. execute rt (following seq) (k u) g'))
        e

  -- A workflow that stopped part way, in valid tables, is run again from its start, after any
  -- sequence of calls but deletions and forks: the run does what a run from the point where the
  -- workflow stopped does. It returns what that returns and leaves the tables that that leaves: no
  -- operation that had returned a value is done a second time. The workflow calls any of `step`,
  -- `step_with`, `now`, `uuid`, `random`, `send`, `set_event` and the stream operations, with closures
  -- that write by calls of the provider and record no step of this workflow.
  pub execute-resumes :
      (rt' : StepEnv p) (seq : ℤ) (w : Program p id) (g : Inner p) (seq' : ℤ) (w' : Program p id)
      (g' h : Inner p)
      → IsValid g
      → Progress seq w g seq' w' g'
      → Runs g' h
      → execute rt' seq w h ≡ execute rt' seq' w' h
  execute-resumes rt' _ _ _ _ _ _ h valid (stopped seq w g) later = refl
  execute-resumes rt' _ _ _ _ _ _ h valid (went rt seq c k v g between seq' w' g' gives others rest)
        later =
      let on = Progress-Runs (following seq) (k v) between seq' w' g' rest in
      replayed rt' seq c k v h (
        perform-replays rt rt' seq c v g h valid gives
          (Runs-trans (perform rt seq c g).1 between h others (Runs-trans between g' h on later)))
      ∙ execute-resumes rt' (following seq) (k v) between seq' w' g' h
          (Runs-IsValid g between valid
            (Runs-trans g (perform rt seq c g).1 between (perform-Runs rt seq c g) others))
          rest later
