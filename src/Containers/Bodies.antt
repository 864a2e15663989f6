-- ===== src/Containers/Bodies.antt =====
-- orchestrator/nodes/kubernetesRemoteNode/index.js: the bodies of its requests, as JSON.
use flowbroker.Prelude.{String, Option, none, some}
use flowbroker.Prelude.Int.{pos}
use flowbroker.Json.{Value, num, str, arr, obj, nil, cons, end, field, Own, found, own}

abbrev pub labels : String → Value
labels name = obj (field "app" (str "flowbroker") (field "name" (str name) end))

-- The container of a deployment.
abbrev pub container_template : String → String → Value
container_template id image = obj (
    field "name" (str id) (
      field "image" (str image) (
        field "imagePullPolicy" (str "Always") (
          field "ports"
            (arr
              (cons
                (obj (
                  field "name" (str "amqp")
                    (field "port" (num (pos 5555)) (field "containerPort" (num (pos 5555)) end))))
                nil)
              end)
            end))))

-- DEPLOY_TEMPLATE, with the name and the container filled in.
abbrev pub pod_template : String → Value → Value
pod_template name container = obj (
    field "metadata" (obj (field "labels" (labels name) end)) (
      field "spec"
        (obj (
          field "containers" (arr (cons container nil) end)
            (field "restartPolicy" (str "Always") end)))
        end))

abbrev pub deployment_body : String → Value → Value
deployment_body name container = obj (
    field "apiVersion" (str "apps/v1") (
      field "kind" (str "Deployment") (
        field "metadata" (obj (field "labels" (labels name) (field "name" (str name) end))) (
          field "spec"
            (obj (
              field "selector" (obj (field "matchLabels" (labels name) end)) (
                field "replicas" (num (pos 1))
                  (field "template" (pod_template name container) end))))
            end))))

-- SERVICE_TEMPLATE: the name of its labels stays empty.
abbrev pub service_body : String → Value
service_body name = obj (
    field "apiVersion" (str "v1") (
      field "kind" (str "Service") (
        field "metadata" (obj (field "name" (str name) (field "labels" (labels "") end))) (
          field "spec"
            (obj (
              field "selector" (obj (field "name" (str name) end)) (
                field "ports"
                  (arr
                    (cons
                      (obj (
                        field "protocol" (str "TCP") (
                          field "port" (num (pos 5555)) (field "targetPort" (num (pos 5555)) end))))
                      nil)
                    end)
                  end)))
            end))))

-- SCALEDOWN_TEMPLATE
abbrev pub scale_body : String → Value
scale_body name = obj (
    field "apiVersion" (str "apps/v1") (
      field "kind" (str "Deployment") (
        field "metadata" (obj (field "name" (str name) (field "labels" (labels name) end)))
          (field "spec" (obj (field "replicas" (num (pos 0)) end)) end))))

-- `body.metadata.name`
abbrev pub name_at : Own → Option String
name_at (found (str s)) = some s
name_at _ = none

abbrev pub name_in_metadata : Own → Option String
name_in_metadata (found v) = name_at (own "name" v)
name_in_metadata _ = none

unfoldable pub name_in : Value → Option String
unfolding own
name_in body = name_in_metadata (own "metadata" body)
