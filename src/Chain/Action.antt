-- ===== src/Chain/Action.antt =====
-- Methods that change the chain and may fail: the state is kept where a call returns an error.
use bitrst.Base.{Result, ok, err}
use bitrst.Chain.Types.{Chain, Fault}

abbrev pub Action : Type 0 → Type 0
Action A = Chain → Chain × Result Fault A

abbrev pub after : {A B : Type 0} → Chain × Result Fault A → (A → Action B) → Chain × Result Fault B
after (chain, ok value) next = next value chain
after (chain, err fault) next = (chain, err fault)

infixl 5 ◌>>=◌ ◌>>◌
unfoldable pub ◌>>=◌ : {A B : Type 0} → Action A → (A → Action B) → Action B
◌>>=◌ first next chain = after (first chain) next

unfoldable pub ◌>>◌ : {B : Type 0} → Action (Unit {0}) → Action B → Action B
◌>>◌ first next chain = after (first chain) (λ done. next)

unfoldable pub pure : {A : Type 0} → A → Action A
pure value chain = (chain, ok value)

-- A check or a computation that does not change the chain.
unfoldable pub lift : {A : Type 0} → Result Fault A → Action A
lift result chain = (chain, result)

unfoldable pub gets : {A : Type 0} → (Chain → A) → Action A
gets read chain = (chain, ok (read chain))

unfoldable pub modify : (Chain → Chain) → Action (Unit {0})
modify change chain = (change chain, ok tt)
