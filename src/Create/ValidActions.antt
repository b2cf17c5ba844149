-- ===== src/Create/ValidActions.antt =====
-- src/lib/openflow_message.c: the actions that are written are accepted by `validate_actions`.
use trema.Base.{
  ℕ, suc, ◌+◌, ◌%◌, ◌^◌, ◌<◌, ◌≡◌, ◌∙◌, refl, sym, ap, true, none, List, [], ◌∷◌, ◌++◌, length,
  length-append, All, arith,
}
use trema.Actions.{
  byte, ntohs_at, action_type, action_len, action_arg16, action_arg8, validate_action,
}
use trema.Actions.Ranges.{is_port}
use trema.Actions.Checks.{
  is_action, is_action-length, size_of_action, is_argument, validate_action-accepts,
}
use trema.Actions.Loop.{Walk, done, step, next_offset}
use trema.Create.{put16, put32, at}
use trema.Create.Read.{read16}
use trema.Create.ActionList.{
  Action, output, set_vlan_vid, set_vlan_pcp, strip_vlan, set_dl_src, set_dl_dst, set_nw_src,
  set_nw_dst, set_nw_tos, set_tp_src, set_tp_dst, enqueue, vendor, len_of, hton_action,
  hton_action_output, hton_action_vlan_vid, hton_action_vlan_pcp, hton_action_strip_vlan,
  hton_action_dl_addr, hton_action_nw_addr, hton_action_nw_tos, hton_action_tp_port,
  hton_action_enqueue, hton_action_vendor,
}
use trema.Create.Flows.{sum_lengths, write_actions}

-- The memory holds the bytes from a place on.
abbrev pub Holds : (ℕ → ℕ) → ℕ → List ℕ → Type 0
Holds b o xs = (i : ℕ) → b (o + i) ≡ at xs i

pub at_behind : (xs rest : List ℕ) (i : ℕ) → at (xs ++ rest) (length xs + i) ≡ at rest i
at_behind [] rest i = ap (at rest) (omega arith)
at_behind (x ∷ xs) rest i =
    let place : suc (length xs) + i ≡ suc (length xs + i) = omega arith in
    ap (at (x ∷ (xs ++ rest))) place ∙ at_behind xs rest i

pub Holds-behind :
    (b : ℕ → ℕ) (o : ℕ) (xs rest : List ℕ) → Holds b o (xs ++ rest) → Holds b (o + length xs) rest
Holds-behind b o xs rest h i =
    let place : o + length xs + i ≡ o + (length xs + i) = omega arith in
    ap b place ∙ h (length xs + i) ∙ at_behind xs rest i

-- What an action must be to be accepted: a port that is not reserved, fields of their widths.
unfoldable pub IsHostAction : Action → Type 0
IsHostAction (output port max_len) = (port < 2 ^ 16) × (is_port port ≡ true)
IsHostAction (set_vlan_vid vlan_vid) = vlan_vid < 4096
IsHostAction (set_vlan_pcp vlan_pcp) = vlan_pcp < 8
IsHostAction (set_nw_tos nw_tos) = (nw_tos < 2 ^ 8) × (nw_tos % 4 ≡ 0)
IsHostAction (enqueue port queue_id) = (port < 2 ^ 16) × (is_port port ≡ true)
IsHostAction (vendor v body) = (length body % 8 ≡ 0) × (8 + length body < 2 ^ 16)
IsHostAction _ = Unit

append_nil : (xs ys rest : List ℕ) → (xs ++ ys) ++ rest ≡ xs ++ (ys ++ rest)
append_nil [] ys rest = refl
append_nil (x ∷ xs) ys rest = ap (λ l. x ∷ l) (append_nil xs ys rest)

-- An action is its own bytes, and those behind it.
pub bytes_and_rest : (a : Action) (rest : List ℕ) → hton_action a rest ≡ hton_action a [] ++ rest
unfolding hton_action hton_action_output hton_action_vlan_vid hton_action_vlan_pcp
    hton_action_strip_vlan hton_action_dl_addr hton_action_nw_addr hton_action_nw_tos
    hton_action_tp_port hton_action_enqueue hton_action_vendor
bytes_and_rest (output p l) rest = refl
bytes_and_rest (set_vlan_vid v) rest = refl
bytes_and_rest (set_vlan_pcp v) rest = refl
bytes_and_rest strip_vlan rest = refl
bytes_and_rest (set_dl_src m) rest = refl
bytes_and_rest (set_dl_dst m) rest = refl
bytes_and_rest (set_nw_src n) rest = refl
bytes_and_rest (set_nw_dst n) rest = refl
bytes_and_rest (set_nw_tos t) rest = refl
bytes_and_rest (set_tp_src p) rest = refl
bytes_and_rest (set_tp_dst p) rest = refl
bytes_and_rest (enqueue p q) rest = refl
bytes_and_rest (vendor v body) rest =
    ap (λ l. put16 0xffff (put16 (8 + length body) (put32 v l))) (sym (append_nil body [] rest))

pub length-hton_action : (a : Action) → IsHostAction a → length (hton_action a []) ≡ len_of a
unfolding hton_action hton_action_output hton_action_vlan_vid hton_action_vlan_pcp
    hton_action_strip_vlan hton_action_dl_addr hton_action_nw_addr hton_action_nw_tos
    hton_action_tp_port hton_action_enqueue hton_action_vendor IsHostAction len_of
length-hton_action (output p l) h = refl
length-hton_action (set_vlan_vid v) h = refl
length-hton_action (set_vlan_pcp v) h = refl
length-hton_action strip_vlan h = refl
length-hton_action (set_dl_src m) h = refl
length-hton_action (set_dl_dst m) h = refl
length-hton_action (set_nw_src n) h = refl
length-hton_action (set_nw_dst n) h = refl
length-hton_action (set_nw_tos t) h = refl
length-hton_action (set_tp_src p) h = refl
length-hton_action (set_tp_dst p) h = refl
length-hton_action (enqueue p q) h = refl
length-hton_action (vendor v body) h = omega (arith, length-append body [], h.1)

written_action_valid :
    (a : Action) (rest : List ℕ)
    → IsHostAction a
    → validate_action (at (hton_action a rest)) 0 ≡ none
unfolding hton_action hton_action_output hton_action_vlan_vid hton_action_vlan_pcp
    hton_action_strip_vlan hton_action_dl_addr hton_action_nw_addr hton_action_nw_tos
    hton_action_tp_port hton_action_enqueue hton_action_vendor IsHostAction is_action size_of_action
    is_argument action_type action_len action_arg16 action_arg8
written_action_valid (output p l) rest h =
    (validate_action-accepts (at (hton_action (output p l) rest)) 0).1 (rw (read16 p [] h.0) h.1)
written_action_valid (set_vlan_vid v) rest h =
    (validate_action-accepts (at (hton_action (set_vlan_vid v) rest)) 0).1 (ground arith)
written_action_valid (set_vlan_pcp v) rest h =
    (validate_action-accepts (at (hton_action (set_vlan_pcp v) rest)) 0).1 (ground arith)
written_action_valid strip_vlan rest h =
    (validate_action-accepts (at (hton_action strip_vlan rest)) 0).1 refl
written_action_valid (set_dl_src m) rest h =
    (validate_action-accepts (at (hton_action (set_dl_src m) rest)) 0).1 refl
written_action_valid (set_dl_dst m) rest h =
    (validate_action-accepts (at (hton_action (set_dl_dst m) rest)) 0).1 refl
written_action_valid (set_nw_src n) rest h =
    (validate_action-accepts (at (hton_action (set_nw_src n) rest)) 0).1 refl
written_action_valid (set_nw_dst n) rest h =
    (validate_action-accepts (at (hton_action (set_nw_dst n) rest)) 0).1 refl
written_action_valid (set_nw_tos t) rest h =
    (validate_action-accepts (at (hton_action (set_nw_tos t) rest)) 0).1 (ground arith)
written_action_valid (set_tp_src p) rest h =
    (validate_action-accepts (at (hton_action (set_tp_src p) rest)) 0).1 refl
written_action_valid (set_tp_dst p) rest h =
    (validate_action-accepts (at (hton_action (set_tp_dst p) rest)) 0).1 refl
written_action_valid (enqueue p q) rest h =
    (validate_action-accepts (at (hton_action (enqueue p q) rest)) 0).1 (rw (read16 p [] h.0) h.1)
written_action_valid (vendor v body) rest h =
    (validate_action-accepts (at (hton_action (vendor v body) rest)) 0).1 (ground arith)

-- Only the first bytes of an action count.
same_action :
    (b c : ℕ → ℕ) (o : ℕ)
    → ((i : ℕ) → b (o + i) ≡ c i)
    → (action_len b o ≡ action_len c 0) × (validate_action c 0 ≡ none → validate_action b o ≡ none)
unfolding action_type action_len action_arg16 action_arg8
same_action b c o h =
    let place : (p i : ℕ) → p ≡ o + i → b p ≡ c i = λ p i e. ap b e ∙ h i in
    let type : ntohs_at b o ≡ ntohs_at c 0 =
      rw (place o 0 (omega arith), place (o + 1) 1 refl) refl in
    let len : ntohs_at b (o + 2) ≡ ntohs_at c 2 =
      rw (place (o + 2) 2 refl, place (o + 2 + 1) 3 (omega arith)) refl in
    let arg16 : ntohs_at b (o + 4) ≡ ntohs_at c 4 =
      rw (place (o + 4) 4 refl, place (o + 4 + 1) 5 (omega arith)) refl in
    let arg8 : byte b (o + 4) ≡ byte c 4 = rw (place (o + 4) 4 refl) refl in
    (
      len,
      λ v.
          (validate_action-accepts b o).1
            (rw (type, len, arg16, arg8) ((validate_action-accepts c 0).0 v)),
    )

action_len-written :
    (a : Action) (rest : List ℕ) → action_len (at (hton_action a rest)) 0 ≡ len_of a
unfolding hton_action hton_action_output hton_action_vlan_vid hton_action_vlan_pcp
    hton_action_strip_vlan hton_action_dl_addr hton_action_nw_addr hton_action_nw_tos
    hton_action_tp_port hton_action_enqueue hton_action_vendor action_len len_of
action_len-written (output p l) rest = refl
action_len-written (set_vlan_vid v) rest = refl
action_len-written (set_vlan_pcp v) rest = refl
action_len-written strip_vlan rest = refl
action_len-written (set_dl_src m) rest = refl
action_len-written (set_dl_dst m) rest = refl
action_len-written (set_nw_src n) rest = refl
action_len-written (set_nw_dst n) rest = refl
action_len-written (set_nw_tos t) rest = refl
action_len-written (set_tp_src p) rest = refl
action_len-written (set_tp_dst p) rest = refl
action_len-written (enqueue p q) rest = refl
action_len-written (vendor v body) rest = omega arith

module _ (b : ℕ → ℕ) (total : ℕ) (small : total < 2 ^ 16) where
  -- Written actions that end at a length are a walk up to it.
  pub written_actions-Walk :
      (list : List Action) (rest : List ℕ) (o : ℕ)
      → All IsHostAction list
      → Holds b o (write_actions list rest)
      → o + sum_lengths list ≡ total
      → Walk b total o
  unfolding write_actions sum_lengths
  written_actions-Walk [] rest o all h e = done (omega arith)
  written_actions-Walk (a ∷ list) rest o (valid, all) h e =
      let (len, accepts) = same_action b (at (hton_action a (write_actions list rest))) o h in
      let length_is : action_len b o ≡ len_of a =
        len ∙ action_len-written a (write_actions list rest) in
      let next : next_offset b o ≡ o + len_of a = omega (arith, length_is) in
      let own = bytes_and_rest a (write_actions list rest) in
      let behind =
        Holds-behind b o (hton_action a []) (write_actions list rest)
          (λ i. h i ∙ ap (λ l. at l i) own) in
      let tail =
        written_actions-Walk list rest (o + len_of a) all (rw (← length-hton_action a valid) behind)
          (omega arith) in
      let accepted = accepts (written_action_valid a (write_actions list rest) valid) in
      let (positive, _) =
        is_action-length (action_type b o) (action_len b o) (action_arg16 b o) (action_arg8 b o)
          ((validate_action-accepts b o).0 accepted) in
      step (omega (arith, positive, length_is)) accepted (rw next tail)
