-- ===== src/Store/Tests.antt =====
-- Concrete runs of the store of python/nedb/store.py.
use aof_db.Prelude.{ℕ, ◌≡◌, refl, some, arith, string_eq, lookup, insert, append_to}
use aof_db.Store.{MvccStore, live, empty, put, write, get}
use aof_db.Store.Invariant.{IsValid, IsValid-empty, write-IsValid, chain}
use aof_db.Store.TimeTravel.{read, get-eq-read, get-put}

abbrev one : MvccStore ℕ
one = write "users:1" (live 10) 0 empty

abbrev two : MvccStore ℕ
two = write "users:1" (live 20) 4 one

one-IsValid : IsValid 1 one
one-IsValid =
    write-IsValid "users:1" (live 10) 0 0 1 empty (omega arith) (omega arith) IsValid-empty

two-IsValid : IsValid 5 two
two-IsValid = write-IsValid "users:1" (live 20) 1 4 5 one (omega arith) (omega arith) one-IsValid

past_read : get "users:1" (some 3) two ≡ some 10
unfolding get write lookup insert append_to
past_read = refl

get-eq-read_example : get "users:1" (some 3) two ≡ read (some 3) (chain two "users:1")
get-eq-read_example = get-eq-read two two-IsValid "users:1" (some 3)

get-put_example : get "users:1" (some 4) (put "users:1" 30 5 two) ≡ get "users:1" (some 4) two
get-put_example = get-put two 5 5 two-IsValid (omega arith) "users:1" "users:1" 30 (some 4)
