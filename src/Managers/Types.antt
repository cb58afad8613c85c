-- ===== src/Managers/Types.antt =====
-- types.go: the records that replies are decoded into.
use synap_sdk_go.Prelude.{String}
use synap_sdk_go.Bytes.{codes}
use synap_sdk_go.Response.Shapes
use synap_sdk_go.Response.Shapes.{Shape}

abbrev pub field_as : String → Shape → Shapes.Fields → Shapes.Fields
field_as name s fs = Shapes.Fields.field (codes name) s fs

abbrev pub end : Shapes.Fields
end = Shapes.Fields.no_fields

abbrev pub message_shape : Shape
message_shape = Shape.struct (
    field_as "id" Shape.string (
      field_as "payload" Shape.bytes (
        field_as "priority" (Shape.uint 8) (
          field_as "retry_count" (Shape.uint 32) (
            field_as "max_retries" (Shape.uint 32)
              (field_as "deadline" (Shape.ptr (Shape.uint 64)) end))))))

abbrev pub queue_stats_shape : Shape
queue_stats_shape = Shape.struct (
    field_as "depth" Shape.int (
      field_as "consumers" Shape.int (
        field_as "published" (Shape.uint 64) (
          field_as "consumed" (Shape.uint 64) (
            field_as "acked" (Shape.uint 64)
              (field_as "nacked" (Shape.uint 64) (field_as "dead_lettered" Shape.int end)))))))

abbrev pub event_shape : Shape
event_shape = Shape.struct (
    field_as "offset" (Shape.uint 64) (
      field_as "event" Shape.string
        (field_as "data" Shape.any (field_as "timestamp" (Shape.ptr (Shape.uint 64)) end))))

abbrev pub stream_stats_shape : Shape
stream_stats_shape = Shape.struct (
    field_as "name" Shape.string (
      field_as "message_count" Shape.int (
        field_as "min_offset" (Shape.uint 64) (
          field_as "max_offset" (Shape.uint 64) (
            field_as "total_published" (Shape.uint 64) (
              field_as "total_consumed" (Shape.uint 64) (
                field_as "subscriber_count" Shape.int (
                  field_as "created_at" (Shape.uint 64)
                    (field_as "generation" (Shape.uint 64) end)))))))))

abbrev pub kv_stats_shape : Shape
kv_stats_shape = Shape.struct (
    field_as "total_keys" Shape.int
      (field_as "total_memory_bytes" Shape.int (field_as "hit_rate" Shape.float end)))
