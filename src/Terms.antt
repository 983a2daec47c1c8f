-- ===== src/Terms.antt =====
-- Terms of the Erlang virtual machine, as the functions `enif_…` show them to c_src/nif.cpp, with the
-- readers of that file that take them apart.
use Prim.Native.Char.{code}
use Prim.Native.String.{String}
use diode_server.Base.{
  ℕ, ◌^◌, Bool, true, false, Option, none, some, ◌∷◌, [], ltb, ◌==◌, if◌then◌else◌, length,
}
use diode_server.Base.Bytes.{Bytes, bin_eq}

-- An `ERL_NIF_TERM`. An atom has the bytes of its name, a natural number is an integer that is not
-- negative, a list is made of cells, a map has its entries in the order of the iterator, and a
-- resource is the number of the object that it holds. `badarg` is what `enif_make_badarg` returns,
-- and `other` any term without these forms.
mutual
  pub data Term : Type 0 where
    atom : Bytes → Term
    integer : ℕ → Term
    binary : Bytes → Term
    empty_list : Term
    cell : Term → Term → Term
    tuple2 : Term → Term → Term
    tuple3 : Term → Term → Term → Term
    tuple4 : Term → Term → Term → Term → Term
    tuple6 : Term → Term → Term → Term → Term → Term → Term
    dict : Entries → Term
    resource : ℕ → Term
    badarg : Term
    other : Term

  pub data Entries : Type 0 where
    done : Entries
    entry : Term → Term → Entries → Entries

-- The code points of the name of an atom, which are its bytes
abbrev pub codes : String → Bytes
codes String.[] = []
codes (String.◌∷◌ c s) = code c ∷ codes s

abbrev pub make_atom : String → Term
make_atom name = atom (codes name)

-- `term_is_atom_named`; the buffer is longer than the names that the code asks for
unfoldable pub term_is_atom_named : Term → String → Bool
term_is_atom_named term name = elim term [ atom bytes ↦ bin_eq bytes (codes name) | _ ↦ false ]

-- `term_is_nil`
unfoldable pub term_is_nil : Term → Bool
unfolding term_is_atom_named
term_is_nil term = term_is_atom_named term "nil"

-- `enif_inspect_binary`
abbrev pub inspect_binary : Term → Option Bytes
inspect_binary term = elim term [ binary bin ↦ some bin | _ ↦ none ]

-- `enif_get_uint64`
abbrev pub get_uint64 : Term → Option ℕ
get_uint64 term = elim term [ integer n ↦ if ltb n (2 ^ 64) then some n else none | _ ↦ none ]

-- `enif_get_tuple` with the arity 2
abbrev pub get_tuple2 : Term → Option (Term × Term)
get_tuple2 term = elim term [ tuple2 a b ↦ some (a, b) | _ ↦ none ]

abbrev pub is_list : Term → Bool
is_list term = elim term [ empty_list ↦ true | cell head tail ↦ true | _ ↦ false ]

abbrev pub is_atom : Term → Bool
is_atom term = elim term [ atom bytes ↦ true | _ ↦ false ]

-- The entries of a map, and nothing of another term
abbrev pub get_map : Term → Option Entries
get_map term = elim term [ dict entries ↦ some entries | _ ↦ none ]

-- `enif_inspect_binary`, with the test of the size
unfoldable pub binary_of_size : ℕ → Term → Option Bytes
binary_of_size n term = elim term [
  | binary bin ↦ if length bin == n then some bin else none
  | _ ↦ none
]

-- `get_address`: the bytes of a `uint160_t`
unfoldable pub get_address : Term → Option Bytes
unfolding binary_of_size
get_address term = binary_of_size 20 term

-- `enif_get_map_value` at an atom
unfoldable pub get_map_value : Entries → Bytes → Option Term
get_map_value done name = none
get_map_value (entry key value entries) name =
    let rest = get_map_value entries name in
    elim key [ atom bytes ↦ (if bin_eq bytes name then some value else rest) | _ ↦ rest ]

-- `map_get_atom`; an atom that does not exist is the key of no map
unfoldable pub map_get_atom : Term → String → Option Term
unfolding get_map_value
map_get_atom term name = elim term [ dict entries ↦ get_map_value entries (codes name) | _ ↦ none ]
