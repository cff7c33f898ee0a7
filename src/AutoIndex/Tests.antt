-- ===== src/AutoIndex/Tests.antt =====
-- A concrete run of python/nedb/autoindex.py, with a database that lists the indexes made on it.
use aof_db.Prelude.{◌≡◌, not, List, [], ◌∷◌, contains, leb, arith, ◌&&◌, ◌||◌, string_eq, pair_eq}
use aof_db.AutoIndex.{Signal, observe_all, opened, is_internal}
use aof_db.AutoIndex.Threshold.{occurrences, indexed, created-observe_all}

abbrev make : Signal → List Signal → List Signal
make key db = key ∷ db

abbrev by_name : Signal
by_name = (("users", "name"), "eq")

abbrev by_seq : Signal
by_seq = (("users", "_seq"), "ordered")

abbrev signals : List Signal
signals = by_name ∷ by_seq ∷ by_name ∷ by_seq ∷ by_name ∷ []

created-observe_all_example :
    (contains (observe_all make 2 signals (opened [] [])).created by_name ≡ (
      contains {A = Signal} [] by_name
      || (not (is_internal by_name) && leb 2 (occurrences by_name signals))))
    × ((added : List Signal) × ((observe_all make 2 signals (opened [] [])).created ≡ added)
        × ((observe_all make 2 signals (opened [] [])).db ≡ indexed make added []))
created-observe_all_example = created-observe_all make 2 [] signals [] by_name (omega arith)
