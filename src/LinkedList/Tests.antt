-- ===== src/LinkedList/Tests.antt =====
-- Runs of list.rs on a memory with a list of three nodes and an empty one.
use score.Base.{ℕ, ◌≡◌, List, [], ◌∷◌, arith, ◌==◌, if◌then◌else◌}
use score.LinkedList.{ListNode, Memory, delete_from_list, splice, iter}
use score.LinkedList.Chain.{IsList}
use score.LinkedList.Ops.{delete-IsList, splice-IsList}
use score.LinkedList.Walk.{iter_skips_first}

abbrev links : ℕ → ℕ → ListNode
links next prev = record { next = next; prev = prev }

-- The list at 10 holds 20, 30 and 40; the list at 50 holds 60.
abbrev memory : Memory
memory x =
    if x == 10
    then links 20 40
    else if x == 20
    then links 30 10
    else if x == 30
    then links 40 20
    else if x == 40
    then links 10 30
    else if x == 50
    then links 60 60
    else if x == 60
    then links 50 50
    else links 0 0

abbrev three : List ℕ
three = 20 ∷ 30 ∷ 40 ∷ []

three-IsList : IsList memory 10 three
three-IsList = record { links = ground arith; distinct = ground arith; valid = ground arith }

one-IsList : IsList memory 50 (60 ∷ [])
one-IsList = record { links = ground arith; distinct = ground arith; valid = ground arith }

delete-IsList_example : IsList (delete_from_list 30 memory) 10 (20 ∷ 40 ∷ [])
delete-IsList_example = delete-IsList memory 10 30 (20 ∷ []) (40 ∷ []) three-IsList

splice-IsList_example :
    IsList (splice 10 50 memory) 10 (20 ∷ 30 ∷ 40 ∷ 60 ∷ []) × IsList (splice 10 50 memory) 50 []
splice-IsList_example =
    splice-IsList memory 10 50 three (60 ∷ []) three-IsList one-IsList (ground arith)

iter_skips_first_example : iter 4 10 memory ≡ 30 ∷ 40 ∷ 10 ∷ []
iter_skips_first_example = iter_skips_first 3 memory 10 20 (30 ∷ 40 ∷ []) three-IsList (omega arith)
