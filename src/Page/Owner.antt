-- ===== src/Page/Owner.antt =====
-- kernel/src/page.rs: the word that names the object of a page, or the owner of a stack.
use Prim.Native.Nat.{bit_and}
use score.Base.{
  ℕ, zero, suc, ◌%◌, ◌≡◌, refl, ap, ◌∙◌, ◌≢◌, inl, inr, true, false, not, arith, ◌==◌, Bool-cases,
  ok, panic,
}
use score.Base.Bits.{bit_and_mask}
use score.Page.{
  VmPageObject, is_stack_owned, get_object, exchange_loop, clear_stack_owner_internal,
  clear_stack_owner, set_object,
}

owned : (value : ℕ) → not (bit_and value 1 == 0) ≡ not (value % 2 == 0)
owned value = ap (λ (t : ℕ). not (t == 0)) (bit_and_mask 1 value)

exchange_loop_lem :
    (failures obj : ℕ) (o : VmPageObject)
    → is_stack_owned o ≡ true
    → exchange_loop failures obj o ≡ ok (record o { object_or_stack_owner = obj })
unfolding exchange_loop is_stack_owned
exchange_loop_lem zero obj o e = rw e refl
exchange_loop_lem (suc failures) obj o e = rw e (exchange_loop_lem failures obj o e)

-- An object that is not 0 and has an even address is read back after it is set, whether the page had an
-- object or a stack owner and however often the exchange fails, the page has no stack owner then, and
-- clearing that again panics; setting 0 panics.
pub set_object-get_object :
    (failures obj : ℕ) (o : VmPageObject)
    → obj ≢ 0
    → obj % 2 ≡ 0
    → ((q : VmPageObject) × (set_object failures obj o ≡ ok q)
        × (q ≡ record o { object_or_stack_owner = obj })
        × (get_object q ≡ obj)
        × (is_stack_owned q ≡ false)
        × (clear_stack_owner failures q ≡ panic)
        × (set_object failures 0 q ≡ panic))
unfolding set_object get_object is_stack_owned clear_stack_owner clear_stack_owner_internal
set_object-get_object failures obj o h even =
    let q = record o { object_or_stack_owner = obj } in
    let nonzero : not (obj == 0) ≡ true = ground arith in
    let free : is_stack_owned q ≡ false = owned obj ∙ ground arith in
    let set : set_object failures obj o ≡ ok q = elim (Bool-cases (is_stack_owned o)) [
      | inl e ↦ rw (nonzero, e) (exchange_loop_lem failures obj o e)
      | inr e ↦ rw (nonzero, e) refl
    ] in
    (q, set, refl, rw free refl, free, rw free refl, refl)
