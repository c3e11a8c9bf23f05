-- ===== src/Service/Monitor.antt =====
-- project_about/feedproxy/levservice/service.h: the buckets of idle entries. An entry lives while a bucket
-- holds it, and its destructor closes the context that it was made for.
use demo_code.Prelude.{
  ℕ, zero, suc, ◌==◌, Bool, true, false, if◌then◌else◌, List, [], ◌∷◌, ◌++◌, length, get_elem?,
  Option, none, some, ◌>>=◌, ◌||◌,
}
use demo_code.Prelude.Occurs.{contains}
use demo_code.Circular.{push}
use demo_code.Service.{Service, put, close}

-- `insert` of a bucket, which is a set.
unfoldable pub insert_entry : ℕ → List ℕ → List ℕ
insert_entry e bucket = if contains e bucket then bucket else e ∷ bucket

-- `back().insert(e)`, on the data of the buffer.
unfoldable pub insert_back : ℕ → List (List ℕ) → List (List ℕ)
insert_back e [] = []
insert_back e (b ∷ []) = insert_entry e b ∷ []
insert_back e (b ∷ c ∷ bs) = b ∷ insert_back e (c ∷ bs)

-- The entry joins the last bucket, which is made where there is none.
unfoldable pub watch : ℕ → Service → Option Service
watch e s = do
  buffer ← if s.idle.data_size == 0 then push [] [] s.idle else some s.idle
  some (record s { idle = record buffer { data_lst = insert_back e buffer.data_lst } })

-- The last part of `AcceptHelper`: a new entry for the context.
unfoldable pub watch_client : ℕ → Service → Option Service
watch_client i s =
    let e = suc (length s.entries) in
    let c = s.contexts i in
    watch e (put i (record c { entry = some e }) (record s { entries = s.entries ++ i ∷ [] }))

-- A bucket holds the entry.
unfoldable pub is_held : ℕ → List (List ℕ) → Bool
is_held e [] = false
is_held e (b ∷ bs) = if contains e b then true else is_held e bs

-- `AddConnToMonitor`. The null pointer joins the bucket where the entry is gone.
unfoldable pub add_conn_to_monitor : ℕ → Service → Option Service
add_conn_to_monitor i s = elim (s.contexts i).entry [
  | none ↦ some s
  | some e ↦ watch (if is_held e s.idle.data_lst then e else 0) s
]

-- The context of an entry, whose weak pointer can be locked while the pool or the map holds it.
unfoldable pub target : ℕ → Service → Option ℕ
target zero s = none
target (suc k) s = get_elem? s.entries k

-- The destructor of an entry.
unfoldable pub expire : ℕ → Service → Service
expire e s = elim (target e s) [
  | none ↦ s
  | some i ↦ if contains i s.free_conn || contains i s.clients then close i s else s
]

-- The entries of the bucket that the buffer let go, if no other bucket holds them.
unfoldable pub expire_all : List ℕ → List (List ℕ) → Service → Service
expire_all [] held s = s
expire_all (e ∷ es) held s = expire_all es held (if is_held e held then s else expire e s)

-- The first bucket is let go if as many as before follow the push of an empty one.
unfoldable pub let_go : List (List ℕ) → List (List ℕ) → List ℕ
let_go [] after = []
let_go (b ∷ bs) after = if length after == suc (suc (length bs)) then [] else b

-- `ProcessIdlConn`
unfoldable pub process_idl_conn : Service → Option Service
process_idl_conn s = do
  buffer ← push [] [] s.idle
  let gone = let_go s.idle.data_lst buffer.data_lst
  some (expire_all gone buffer.data_lst (record s { idle = buffer }))
