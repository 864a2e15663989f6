-- ===== src/Contexts/Tests.antt =====
-- The names of two contexts of one flow.
use flowbroker.Prelude.{◌≡◌, refl}
use flowbroker.Contexts.{flow_layer, context_path}
use flowbroker.Contexts.Names.{IsPlain}

path_of_flow : context_path (flow_layer "admin" "f1") "sum" ≡ "admin/f1/sum"
unfolding context_path
path_of_flow = refl

admin-IsPlain : IsPlain "admin"
admin-IsPlain = (refl, (refl, (refl, (refl, (refl, tt)))))

f1-IsPlain : IsPlain "f1"
f1-IsPlain = (refl, (refl, tt))

sum-IsPlain : IsPlain "sum"
sum-IsPlain = (refl, (refl, (refl, tt)))
