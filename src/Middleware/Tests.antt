-- ===== src/Middleware/Tests.antt =====
-- Runs of the middleware chain, and its theorems at concrete inputs.
use eventful.Base.{true, false, some, List, [], ◌∷◌, ◌++◌, ◌≡◌, refl, has}
use eventful.Event.{nat}
use eventful.Exceptions.{ok}
use eventful.Listener.{Callable}
use eventful.Runtime.{Comp, ◌>>=◌, Returned, plain, Runtime}
use eventful.Middleware.{
  add, remove, invoke_sync, invoke_async, wrap, wrap_async, terminal, reject_awaitable, settle,
}
use eventful.Middleware.Chain.{nested, nested_async, invoke-nested, IsUnique, add_lem}

-- Each middleware and each listener notes its identity.
abbrev note : Callable → Comp (List Callable) (Returned (List Callable))
note f s = (ok (plain (nat f)), s ++ f ∷ [])

abbrev noting : Runtime (List Callable)
noting = record {
  call = λ f r. note f;
  call_middleware = λ m next r s. next r (s ++ m ∷ []);
  is_coroutine_function = λ f. false;
  has_coroutine_call = λ f. false;
  call_error_handler = λ h e r f s. (ok tt, s);
  record_event = λ p r g s. (ok tt, s);
  validate = λ g r s. (ok tt, s);
  log = λ x s. s;
}

chain_run : invoke_sync noting (1 ∷ 2 ∷ []) 3 0 [] ≡ (ok (nat 3), 1 ∷ 2 ∷ 3 ∷ [])
unfolding invoke_sync wrap
chain_run = refl

async_run : invoke_async noting (1 ∷ 2 ∷ []) 3 0 [] ≡ (ok (nat 3), 1 ∷ 2 ∷ 3 ∷ [])
unfolding invoke_async wrap_async terminal
async_run = refl

invoke-nested_example :
    (invoke_sync noting (1 ∷ 2 ∷ []) 3 0
      ≡ (nested noting (1 ∷ 2 ∷ []) (noting.call 3) 0 >>= reject_awaitable noting))
    × (invoke_async noting (1 ∷ 2 ∷ []) 3 0
        ≡ (nested_async noting (1 ∷ 2 ∷ []) (terminal noting 3) 0 >>= settle noting))
invoke-nested_example = invoke-nested noting (1 ∷ 2 ∷ []) 3 0

add_lem_example :
    (c : List Callable) × (add (some 3) (1 ∷ 2 ∷ []) ≡ ok c)
    × IsUnique c
    × (has 3 c ≡ true)
    × (has 3 (1 ∷ 2 ∷ []) ≡ false → (c ≡ 1 ∷ 2 ∷ 3 ∷ []) × (remove 3 c ≡ (true, 1 ∷ 2 ∷ [])))
    × (has 3 (1 ∷ 2 ∷ []) ≡ true → c ≡ 1 ∷ 2 ∷ [])
add_lem_example = add_lem 3 (1 ∷ 2 ∷ []) (unfold has in (refl, (refl, tt)))
