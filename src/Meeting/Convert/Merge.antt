-- ===== src/Meeting/Convert/Merge.antt =====
-- `mergeAndUnique` of internal/rpc/meeting/convert.go: the map `exists` is the list of what it holds.
use openmeeting_server.Base.{String, List, [], ◌∷◌, ◌++◌, if◌then◌else◌}
pub mod Unique
use openmeeting_server.Base.Lists.{contains}

-- One of the two loops: the keys of `exists`, and `result`.
unfoldable pub unique_onto : List String → List String → List String → List String × List String
unfolding contains
unique_onto exists result [] = (exists, result)
unique_onto exists result (v ∷ array) =
    if contains v exists
    then unique_onto exists result array
    else unique_onto (v ∷ exists) (result ++ v ∷ []) array

unfoldable pub merge_and_unique : List String → List String → List String
unfolding unique_onto
merge_and_unique array1 array2 =
    let (exists, result) = unique_onto [] [] array1 in (unique_onto exists result array2).1
