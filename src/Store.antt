-- ===== src/Store.antt =====
-- crates/bitrst-core/src/store.rs: the errors of block storage, and the store in memory.
use bitrst.Base.{ℕ, List, [], String, Option, Result, ok}
use bitrst.Base.Map
use bitrst.Base.Map.{Map}
use bitrst.Base.Keys.{bytes_discrete}
use bitrst.Crypto.{Primitives}
use bitrst.Block.Types.{Block}
use bitrst.Block.Encode.{hash}

pub data StoreError : Type 0 where
  not_found : StoreError
  commit_failed : StoreError
  invalid_path : StoreError
  corrupt : String → StoreError
  -- expected, actual
  hash_mismatch : List ℕ → List ℕ → StoreError
  -- context, message
  io : String → String → StoreError

pub record MemoryBlockStore : Type 0 where
  pub blocks : Map (List ℕ) Block

unfoldable pub new : MemoryBlockStore
new = record { blocks = [] }

-- In memory a block is always stored: what the source returns is `Ok(())`.
unfoldable pub put_block : Primitives → MemoryBlockStore → Block → MemoryBlockStore
put_block crypto store block = record {
  blocks = Map.insert bytes_discrete (hash crypto block) block store.blocks;
}

unfoldable pub get_block : MemoryBlockStore → List ℕ → Result StoreError (Option Block)
get_block store hash_ = ok (Map.get bytes_discrete hash_ store.blocks)

unfoldable pub commit : MemoryBlockStore → Result StoreError (Unit {0})
commit store = ok tt
