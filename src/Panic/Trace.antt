-- ===== src/Panic/Trace.antt =====
-- What the stack trace shows.
use sunflower.Common.{◌==◌, if◌then◌else◌, ℕ, zero, suc, ◌+◌, ◌≡◌, refl, ◌≢◌, List, [], ◌∷◌, arith}
use sunflower.Panic.{Stack, stack_trace}

-- The frames of a chain, from the one at the base pointer on: each points to the next, none of which
-- is at address 0, and the last one to nothing.
abbrev pub IsChain : Stack → ℕ → List ℕ → Type 0
IsChain st stack [] = st.next stack ≡ 0
IsChain st stack (f ∷ fs) = (st.next stack ≡ f) × (f ≢ 0) × IsChain st f fs

-- The first `frames` frames but for the last of the chain, with their indices and return addresses;
-- those without a return address are left out.
unfoldable pub lines : Stack → ℕ → ℕ → ℕ → List ℕ → List (ℕ × ℕ)
lines st zero idx stack fs = []
lines st (suc frames) idx stack [] = []
lines st (suc frames) idx stack (f ∷ fs) =
    let rest = lines st frames (idx + 1) f fs in
    if st.rip stack == 0 then rest else (idx, st.rip stack) ∷ rest

-- On a chain of frames, the trace shows the return address of each of its first frames that has one,
-- but never that of the last frame of the chain.
pub stack_trace_lem :
    (st : Stack) (frames idx stack : ℕ) (fs : List ℕ)
    → IsChain st stack fs
    → stack_trace st frames idx stack ≡ lines st frames idx stack fs
unfolding stack_trace lines
stack_trace_lem st zero idx stack fs c = refl
stack_trace_lem st (suc frames) idx stack [] c = rw c refl
stack_trace_lem st (suc frames) idx stack (f ∷ fs) (e, ne, c) =
    let ih = stack_trace_lem st frames (idx + 1) f fs c in ground (arith, ih, e, ne)
