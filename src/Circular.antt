-- ===== src/Circular.antt =====
-- project_about/feedproxy/public/eddid_cricular_buffer.h: a bounded buffer over two linked lists of
-- nodes, those that hold data and those that are free. A list of nodes is the list of their data,
-- from its head; `none` is a read through a null pointer. The three weak pointers to the node that
-- was inserted last are the end of the data list, to which `push` sets them; they are read only
-- where that list has a node. The mutex makes each operation one step.
pub mod Invariant
pub mod Queue
pub mod Resize
mod Tests
use demo_code.Prelude.{
  u32, sub_u32, ℕ, zero, suc, ◌+◌, ◌-◌, ◌%◌, ◌^◌, ltb, leb, ◌==◌, if◌then◌else◌, Option, none, some,
  ◌>>=◌, List, [], ◌∷◌, ◌++◌, replicate,
}

pub record CircularBuffer {ℓ} (A : Type ℓ) : Type ℓ where
  pub buffer_size : ℕ
  pub data_size : ℕ
  pub free_node_num : ℕ
  pub data_lst : List A
  pub free_lst : List A

module _ {ℓ} {A : Type ℓ} where
  -- `n` rounds of the loops that unlink the head of a list.
  unfoldable pub unlink : ℕ → List A → Option (List A)
  unlink zero xs = some xs
  unlink (suc n) [] = none
  unlink (suc n) (x ∷ xs) = unlink n xs

  unfoldable pub push_back : A → List A → List A
  push_back t xs = xs ++ t ∷ []

-- `blank` is `T()`.
module _ {ℓ} {A : Type ℓ} (blank : A) where
  -- the constructor
  unfoldable pub new : ℕ → CircularBuffer A
  new buffer_size = record {
    buffer_size = buffer_size;
    data_size = 0;
    free_node_num = u32 (buffer_size + 1);
    data_lst = [];
    free_lst = blank ∷ replicate buffer_size blank;
  }

  -- `push`, once a free node was taken: with no data, and with a first node `x`.
  unfoldable pub insert_node : A → List A → List A → CircularBuffer A → CircularBuffer A
  insert_node t free [] b = record b {
    data_size = u32 (b.data_size + 1);
    free_node_num = sub_u32 b.free_node_num 1;
    data_lst = t ∷ [];
    free_lst = free;
  }
  insert_node t free (x ∷ xs) b =
      if leb b.buffer_size b.data_size
      then record b {
        free_node_num = u32 (sub_u32 b.free_node_num 1 + 1);
        data_lst = push_back t xs;
        free_lst = blank ∷ free;
      }
      else record b {
        data_size = u32 (b.data_size + 1);
        free_node_num = sub_u32 b.free_node_num 1;
        data_lst = x ∷ push_back t xs;
        free_lst = free;
      }

  -- `push`, which always returns true
  unfoldable pub push : A → CircularBuffer A → Option (CircularBuffer A)
  unfolding insert_node push_back
  push t b = elim b.free_lst [ [] ↦ none | _ ∷ free ↦ some (insert_node t free b.data_lst b) ]

  -- the last loop of `resize`: `sum` new free nodes
  unfoldable pub add_free : ℕ → CircularBuffer A → CircularBuffer A
  add_free zero b = b
  add_free (suc n) b =
      add_free n
        (record b { free_lst = blank ∷ b.free_lst; free_node_num = u32 (b.free_node_num + 1) })

  -- `resize` to a size that is not larger, and to a larger one
  unfoldable pub shrink : ℕ → CircularBuffer A → Option (CircularBuffer A)
  unfolding unlink
  shrink size b =
      if leb b.data_size size
      then (do
        free ← unlink (sub_u32 (sub_u32 (u32 (b.free_node_num + b.data_size)) size) 1) b.free_lst
        some (record b {
          buffer_size = size;
          free_node_num = u32 (sub_u32 size b.data_size + 1);
          free_lst = free;
        }))
      else (do
        kept ← unlink (sub_u32 b.data_size size) b.data_lst
        free ← unlink (sub_u32 b.free_node_num 1) b.free_lst
        some (record b {
          buffer_size = size;
          data_size = sub_u32 b.data_size size;
          data_lst = kept;
          free_lst = free;
        }))

  unfoldable pub grow : ℕ → CircularBuffer A → CircularBuffer A
  unfolding add_free
  grow size b =
      add_free (u32 (sub_u32 (sub_u32 size b.data_size) b.free_node_num + 1))
        (record b { buffer_size = size })

  -- `resize`
  unfoldable pub resize : ℕ → CircularBuffer A → Option (CircularBuffer A)
  unfolding shrink grow
  resize size b = if leb size b.buffer_size then shrink size b else some (grow size b)

module _ {ℓ} {A : Type ℓ} where
  -- `pop`, where the count is not 0: the first node becomes free with its data
  unfoldable pub unlink_first : List A → CircularBuffer A → Option (CircularBuffer A)
  unlink_first [] b = none
  unlink_first (x ∷ xs) b = some (record b {
    data_size = sub_u32 b.data_size 1;
    free_node_num = u32 (b.free_node_num + 1);
    data_lst = xs;
    free_lst = x ∷ b.free_lst;
  })

  unfoldable pub pop : CircularBuffer A → Option (CircularBuffer A)
  unfolding unlink_first
  pop b = if b.data_size == 0 then some b else unlink_first b.data_lst b
