-- ===== src/Grinder/Page/QueueChart.antt =====
-- `__HTML_QUEUE_CHART` of mig/analyser/grinder.py: the template of the chart of the queries in the air.
use dnstools.Prelude.{◌∷◌, []}
use dnstools.Chart.{Text}
use dnstools.Strings.{lines}

unfoldable pub html_queue_chart : Text
unfolding lines
html_queue_chart = lines (
    "<div style=\"font-family:arial; font-size:75%%; min-width: 310px; margin: 0 auto\">"
    ∷ "      <h1>Queries In-Air</h1>" ∷ "    </div>"
    ∷ "    <svg id=\"queue\" style=\"min-width: 310px; height: 700px; margin: 0 auto\"></svg>"
    ∷ "    <div style=\"font-family:arial; font-size:75%%; min-width: 310px; margin: 0 auto\">"
    ∷ "      count&nbsp;<sub>min</sub>:&nbsp;<input id=\"queueYMin\"/>;"
    ∷ "      count&nbsp;<sub>max</sub>:&nbsp;<input id=\"queueYMax\"/>;"
    ∷ "      <button onclick=\"applyLatencyDomains()\">Apply</button>"
    ∷ "      <button onclick=\"resetLatencyDomains()\">Reset</button>" ∷ "    </div>"
    ∷ "    <script>" ∷ "      var queueData = %s" ∷ "" ∷ "      var queueChart"
    ∷ "      var queueYMin = document.getElementById(\"queueYMin\"),"
    ∷ "          queueYMax = document.getElementById(\"queueYMax\")" ∷ ""
    ∷ "      var applyLatencyDomains = function() {"
    ∷ "        queueChart.yDomain([queueYMin.value, queueYMax.value])"
    ∷ "        queueChart.update()" ∷ "      }" ∷ ""
    ∷ "      var resetLatencyDomains = function() {" ∷ "        queueChart.yDomain(null)"
    ∷ "        queueChart.update()" ∷ "      }" ∷ "" ∷ "      nv.addGraph({"
    ∷ "        generate: function() {" ∷ "          var svg = d3.select('#queue')"
    ∷ "          queueChart = nv.models.lineWithFocusChart()" ∷ "          queueChart"
    ∷ "            .width(svg.attr('width'))" ∷ "            .dispatch.on('renderEnd', function(){"
    ∷ "              var yDomain = queueChart.yAxis.domain()"
    ∷ "              queueYMin.value = yDomain[0]" ∷ "              queueYMax.value = yDomain[1]"
    ∷ "            })" ∷ "" ∷ "          queueChart.xAxis" ∷ "            .axisLabel(\"time, ms\")"
    ∷ "            .showMaxMin(false)" ∷ "" ∷ "          queueChart.yAxis"
    ∷ "            .axisLabel(\"count\")" ∷ "            .showMaxMin(false)" ∷ ""
    ∷ "          svg.datum(queueData).call(queueChart)" ∷ "" ∷ "          return queueChart"
    ∷ "        }," ∷ "        callback: function(graph) {"
    ∷ "            window.onresize = function() {" ∷ "                var svg = d3.select('#queue')"
    ∷ "                graph.width(svg.attr('width'))" ∷ "                svg.call(graph)"
    ∷ "            };" ∷ "        }" ∷ "      })" ∷ "    </script>" ∷ [])
