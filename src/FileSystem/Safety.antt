-- ===== src/FileSystem/Safety.antt =====
-- What holds of the files of src/builtins/fs.cc while the script uses each descriptor for one request
-- at a time.
use capy_js.Prelude.{
  times, ℕ, ◌+◌, ◌≡◌, refl, arith, inl, inr, Bool, Option, none, some, List, [], ◌∷◌, All, subst,
  sym,
}
use capy_js.FileSystem.{
  Answer, World, begin, Step, opens, reads, closes, others_first, performs, calls_back, Steps, here,
  later,
}
use capy_js.FileSystem.Counts.{times_called, times_due, Steps-Counted}
use capy_js.FileSystem.Inv.{In, Inv, Fine, begin-Inv}
use capy_js.FileSystem.Calls.{
  open_file_async-Inv, read_file_async-Inv, close_file_async-Inv, others_first-Inv,
}
use capy_js.FileSystem.Requests.{perform-Fine, call_back-Fine}

Step-Fine : (w : World) (next : Option World) → Inv w → Step w next → Fine next
Step-Fine w next v (opens cb e) = subst Fine (sym e) (open_file_async-Inv cb w v)
Step-Fine w next v (reads fd len cb q e) = subst Fine (sym e) (read_file_async-Inv fd len cb w v q)
Step-Fine w next v (closes fd q e) = subst Fine (sym e) (close_file_async-Inv fd w v q)
Step-Fine w next v (others_first r rs h e) = subst Fine (sym e) (others_first-Inv r rs w v h)
Step-Fine w next v (performs ans r rs h n p e) =
    subst Fine (sym e) (perform-Fine r rs w v h ans r.op refl n p)
Step-Fine w next v (calls_back ans r rs h n e) =
    subst Fine (sym e) (call_back-Fine r rs w v h ans r.op refl n)

Steps-Inv : (w v : World) → Inv w → Steps w v → Inv v
Steps-Inv w v i here = i
Steps-Inv w v i (later {u} steps step) = Step-Fine u (some v) (Steps-Inv w u i steps) step

-- While the script asks nothing of a descriptor that has a request under way, no step uses an entry
-- or a buffer that is deleted: not the calls of the script, nor the threads of the pool that write to
-- the buffers, nor the callbacks, however they are ordered.
pub files_never_fault : (os_fds : ℕ → Bool) (w : World) → Steps (begin os_fds) w → Step w none → ⊥
files_never_fault os_fds w steps step =
    Step-Fine w none (Steps-Inv (begin os_fds) w (begin-Inv os_fds) steps) step

In-All :
    (found : List (ℕ × Answer)) (c : ℕ × Answer) (cs : List (ℕ × Answer))
    → All (λ d. In d found) cs
    → In c cs
    → In c found
In-All found c [] h i = absurd i
In-All found c (d ∷ cs) (p, h) (inl e) = subst (λ x. In x found) (sym e) p
In-All found c (d ∷ cs) (p, h) (inr i) = In-All found c cs h i

-- While the script asks nothing of a descriptor that has a request under way: each time that the script
-- hands a callback to open or to read, either the callback has been called, or its request is still
-- under way, or the read was of a descriptor that is not known, and then it is never called. And each
-- call is told what the operating system answered to a request of that callback; after a read
-- that is the very bytes that were read, as the code gives them to JS_NewStringLen, although they wait in a buffer that later requests of the descriptor share.
pub answers_are_told_once :
    (os_fds : ℕ → Bool) (w : World)
    → Steps (begin os_fds) w
    → ((cb : ℕ)
        → times cb w.asked
          ≡ times_called cb w.called + times_due cb w.requests + times cb w.ignored)
      × ((call : ℕ × Answer) → In call w.called → In call w.found)
answers_are_told_once os_fds w steps = (
  λ cb. Steps-Counted cb (begin os_fds) w (omega arith) steps,
  λ call i.
      In-All w.found call w.called (Steps-Inv (begin os_fds) w (begin-Inv os_fds) steps).told i,
)
