-- ===== src/OutputService/Requests/Filtered.antt =====
-- StartBuild() of pkg/filesystem/virtual/bazel_output_service_directory.go, where no call after its
-- checks fails.
use Prim.Native.String.{String}
