-- ===== src/Sema/InferKept.antt =====
-- Inference of expressions and blocks keeps what was known.
use back_and_forth.Prelude.{
  ℕ, Bool, true, false, ◌||◌, List, ◌≡◌, arith, Text, Bool-cases, Option-cases, inl, inr,
}
use back_and_forth.Syntax.{
  BafType, unknown, int, CallInfo, ArgInfo, Expr, Args, null, integer, string, boolean, name,
  binary, unary, call, no_args, arg, Function,
}
use back_and_forth.Token.{Token}
use back_and_forth.Sema.Env.{TypeSlot, own, external, Binding, env_find}
use back_and_forth.Sema.Types.{
  type_eq, is_unknown, binding_type, parameter_type, expected_call_parameter,
}
use back_and_forth.Sema.Validate.{Operation, equality, addition, plain, operation, unary_type}
use back_and_forth.Sema.Infer.{
  Inference, Inferring, fills, fill_binding, fill_parameter, infer_binding, infer_name, again_if,
  infer_equal, infer_sum, infer_binary, supply_parameter, infer_expr, infer_args,
}
use back_and_forth.Sema.Kept.{Kept, set_parameter_type-Kept}

fills-unknown : (old t : BafType) → fills old t ≡ true → is_unknown old ≡ true
fills-unknown old t h = ground arith

module _ (fs : List Function) where
  abbrev pub Keeps : Inference → Type 0
  Keeps s = Kept fs s.functions

  -- A way of inferring that keeps them.
  abbrev pub Keeping : Inferring → Type 0
  Keeping run = (t : BafType) (s : Inference) → Keeps s → Keeps (run t s).1

  fill_slot-Keeps :
      (n : Text) (slot : TypeSlot) (token : Token) (t : BafType) (s : Inference)
      → is_unknown (binding_type s.functions (record { name = n; slot = slot; token = token }))
        ≡ true
      → Keeps s
      → Keeps (fill_binding (record { name = n; slot = slot; token = token }) t s)
  fill_slot-Keeps n (own old) token t s u k = k
  fill_slot-Keeps n (external f i) token t s u k = set_parameter_type-Kept fs s.functions f i t u k

  infer_binding-Keeps :
      (b : Binding) (t : BafType) (s : Inference) → Keeps s → Keeps (infer_binding b t s).1
  unfolding infer_binding
  infer_binding-Keeps b t s k = elim (Bool-cases (fills (binding_type s.functions b) t)) [
    | inl e ↦ rw e (fill_slot-Keeps b.name b.slot b.token t s (fills-unknown _ t e) k)
    | inr e ↦ rw e k
  ]

  infer_name-Keeps : (n : Text) (t : BafType) (s : Inference) → Keeps s → Keeps (infer_name n t s).1
  unfolding infer_name
  infer_name-Keeps n t s k = elim (Option-cases (env_find s.env n)) [
    | inl e ↦ rw (e, infer_name) k
    | inr (b, e) ↦ rw (e, infer_name) (infer_binding-Keeps b t s k)
  ]

  again_if-Keeps :
      (test : Bool) (run : Inferring) (t : BafType) (s : Inference)
      → Keeping run
      → Keeps s
      → Keeps (again_if test run t s)
  again_if-Keeps true run t s r k = r t s k
  again_if-Keeps false run t s r k = k

  infer_equal-Keeps :
      (left right : Inferring) (l r : BafType) (s : Inference)
      → Keeping left
      → Keeping right
      → Keeps s
      → Keeps (infer_equal left right l r s)
  unfolding infer_equal
  infer_equal-Keeps left right l r s kl kr k = elim (Bool-cases (fills l r)) [
    | inl e ↦ rw (e, infer_equal) (kl r s k)
    | inr e ↦ rw (e, infer_equal) (again_if-Keeps (fills r l) right l s kr k)
  ]

  infer_sum-Keeps :
      (left right : Inferring) (l r : BafType) (s : Inference)
      → Keeping left
      → Keeping right
      → Keeps s
      → Keeps (infer_sum left right l r s).1
  unfolding infer_sum
  infer_sum-Keeps left right l r s kl kr k =
      elim (Bool-cases (type_eq l BafType.str || type_eq r BafType.str)) [
        | inl e ↦ rw (e, infer_sum) k
        | inr e ↦
            rw (e, infer_sum)
              (again_if-Keeps (is_unknown r) right int _ kr
                (again_if-Keeps (is_unknown l) left int s kl k))
      ]

  infer_binary-Keeps :
      (o : Operation) (left right : Inferring) (s : Inference)
      → Keeping left
      → Keeping right
      → Keeps s
      → Keeps (infer_binary o left right s).1
  unfolding infer_binary
  infer_binary-Keeps equality left right s kl kr k =
      let (l, s₁) = left unknown s in
      let (r, s₂) = right unknown s₁ in
      infer_equal-Keeps left right l r s₂ kl kr (kr unknown s₁ (kl unknown s k))
  infer_binary-Keeps addition left right s kl kr k =
      let (l, s₁) = left unknown s in
      let (r, s₂) = right unknown s₁ in
      infer_sum-Keeps left right l r s₂ kl kr (kr unknown s₁ (kl unknown s k))
  infer_binary-Keeps (plain a b) left right s kl kr k = kr a (left a s).1 (kl a s k)

  supply_fixed-Keeps :
      (f i : ℕ) (run : Inferring) (t : BafType) (s : Inference)
      → Keeping run
      → fills (parameter_type s.functions f i) t ≡ true
      → Keeps s
      → Keeps (run t (fill_parameter f i t s)).1
  supply_fixed-Keeps f i run t s kr e k =
      kr t _ (set_parameter_type-Kept fs s.functions f i t (fills-unknown _ t e) k)

  supply_parameter-Keeps :
      (info : CallInfo) (a : ArgInfo) (run : Inferring) (t : BafType) (s : Inference)
      → Keeping run
      → Keeps s
      → Keeps (supply_parameter info a run t s)
  unfolding supply_parameter
  supply_parameter-Keeps info a run t s kr k = elim (Option-cases info.resolved) [
    | inl e ↦ rw (e, supply_parameter) k
    | inr (f, e) ↦ elim (Option-cases a.resolved_parameter) [
      | inl g ↦ rw (e, g, supply_parameter) k
      | inr (i, g) ↦ elim (Bool-cases (fills (parameter_type s.functions f i) t)) [
        | inl h ↦ rw (e, g, h, supply_parameter) (supply_fixed-Keeps f i run t s kr h k)
        | inr h ↦ rw (e, g, h, supply_parameter) k
      ]
    ]
  ]

  mutual
    unfolding infer_expr

    pub infer_expr-Keeping : (e : Expr) → Keeping (infer_expr e)
    infer_expr-Keeping null t s k = k
    infer_expr-Keeping (integer _ v) t s k = k
    infer_expr-Keeping (string _ v) t s k = k
    infer_expr-Keeping (boolean _ v) t s k = k
    infer_expr-Keeping (name _ n) t s k = infer_name-Keeps n t s k
    infer_expr-Keeping (binary _ op left right) t s k =
        infer_binary-Keeps (operation op) (infer_expr left) (infer_expr right) s
          (infer_expr-Keeping left) (infer_expr-Keeping right) k
    infer_expr-Keeping (unary _ op operand) t s k = infer_expr-Keeping operand (unary_type op) s k
    infer_expr-Keeping (call _ info args) t s k = infer_args-Keeps info args s k

    pub infer_args-Keeps :
        (info : CallInfo) (args : Args) (s : Inference) → Keeps s → Keeps (infer_args info args s)
    infer_args-Keeps info no_args s k = k
    infer_args-Keeps info (arg a e rest) s k =
        let expected = expected_call_parameter s.functions info a.resolved_parameter in
        let (actual, s₁) = infer_expr e expected s in
        infer_args-Keeps info rest
          (supply_parameter info a (λ type u. infer_expr e type u) actual s₁)
          (supply_parameter-Keeps info a (λ type u. infer_expr e type u) actual s₁
            (infer_expr-Keeping e) (infer_expr-Keeping e expected s k))
